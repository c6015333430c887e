-- ===== src/Provider/Availability.antt =====
-- When `resolveWithLease` of plugin/src/provider.ts finds a host.
use opencode_remote_ssh.Base.{
  ℕ, String, ◌≡◌, refl, ◌≢◌, inl, inr, Bool, true, false, ◌||◌, Option, none, some, List, [], ◌∷◌,
  find, find-In, any, lookup, insert, lookup-insert, arith, Option-cases, sym,
}
use opencode_remote_ssh.Types.{
  exclusive, HostConfig, ProviderConfig, LeaseRecord, unknown_provider, Result, ok, err,
}
use opencode_remote_ssh.Config.{ResolvedPluginConfig}
use opencode_remote_ssh.Leases
use opencode_remote_ssh.Leases.{Leases, grant}
use opencode_remote_ssh.Provider.{
  HostSelectionRequest, candidates, is_free, is_held_by, resolve_among, resolve_with_lease,
}
use opencode_remote_ssh.Provider.Exclusive.{settle, resolve_among-settle}

abbrev pub is_ok {ℓ} : {A : Type ℓ} → Result A → Bool
is_ok (ok a) = true
is_ok (err e) = false

is_some : Option HostConfig → Bool
is_some none = false
is_some (some c) = true

find-any :
    (p q : HostConfig → Bool) (hosts : List HostConfig)
    → any (λ c. p c || q c) hosts ≡ (is_some (find p hosts) || is_some (find q hosts))
unfolding is_some
find-any p q [] = refl
find-any p q (c ∷ cs) = ground (arith, find-any p q cs)

-- The candidates that serve `w`: the hosts that it holds, and the free ones.
abbrev pub can_serve : Leases → String → HostConfig → Bool
can_serve leases w c = is_held_by leases w c || is_free leases c

module _ (config : ResolvedPluginConfig) (mode : config.defaults.lease_mode ≡ exclusive) where
  settle-is_ok :
      (leases : Leases) (provider : ProviderConfig) (request : HostSelectionRequest) (w : String)
      (now : ℕ) (own free : Option HostConfig)
      → is_ok (settle config mode leases provider request w now own free).0
        ≡ (is_some own || is_some free)
  unfolding is_some
  settle-is_ok leases provider request w now (some c) free = refl
  settle-is_ok leases provider request w now none (some c) = refl
  settle-is_ok leases provider request w now none none = refl

  among-is_ok :
      (leases : Leases) (provider : ProviderConfig) (request : HostSelectionRequest)
      (hosts : List HostConfig) (w : String) (now : ℕ)
      → w ≢ ""
      → is_ok (resolve_among config leases provider request hosts (some w) now).0
        ≡ any (can_serve leases w) hosts
  unfolding resolve_among
  among-is_ok leases provider request [] w now named = refl
  among-is_ok leases provider request (h ∷ hs) w now named =
      rw
        (
          resolve_among-settle config mode leases provider request h hs w now named,
          settle-is_ok leases provider request w now (find (is_held_by leases w) (h ∷ hs))
              (find (is_free leases) (h ∷ hs)),
        )
        (sym (find-any (is_held_by leases w) (is_free leases) (h ∷ hs)))

  -- In exclusive mode, a resolution for a workspace whose id is not empty succeeds exactly if the
  -- provider is configured and one of its candidates is free or held by the workspace already.
  pub resolve_with_lease-is_ok :
      (leases : Leases) (request : HostSelectionRequest) (w : String) (now : ℕ)
      → w ≢ ""
      → is_ok (resolve_with_lease config leases request (some w) now).0
        ≡ (elim (lookup request.provider config.providers) [
          | none ↦ false
          | some provider ↦ any (can_serve leases w) (candidates provider request)
        ])
  unfolding resolve_with_lease
  resolve_with_lease-is_ok leases request w now named =
      elim (Option-cases (lookup request.provider config.providers)) [
        | inl missing ↦ rw (missing, resolve_with_lease)
        | inr (p, found) ↦
            rw (found, resolve_with_lease)
              (among-is_ok leases p request (candidates p request) w now named)
      ]

  get-granted :
      (leases : Leases) (host : String) (l : LeaseRecord)
      → Leases.get (insert host l leases) host ≡ some l
  unfolding Leases.get
  get-granted leases host l = ground (arith, lookup-insert host host l leases)

  -- After a host is taken, it is the first that the workspace holds.
  find-held_after :
      (leases : Leases) (w : String) (hosts : List HostConfig) (c : HostConfig) (now : ℕ)
      → find (is_held_by leases w) hosts ≡ none
      → find (is_free leases) hosts ≡ some c
      → find (is_held_by (insert c.name (grant c.name w exclusive now) leases) w) hosts ≡ some c
  unfolding is_held_by is_free Leases.get
  find-held_after leases w [] c now e f = cc
  find-held_after leases w (d ∷ ds) c now e f =
      let lease = grant c.name w exclusive now in
      ground (
        arith,
        find-held_after leases w ds c now,
        find-In (is_free leases) ds c,
        lookup-insert d.name c.name lease leases,
      )

  settle_again :
      (leases : Leases) (provider : ProviderConfig) (request : HostSelectionRequest)
      (hosts : List HostConfig) (w : String) (now later : ℕ)
      → let first =
          settle config mode leases provider request w now
            (find (is_held_by leases w) hosts)
            (find (is_free leases) hosts) in
        settle config mode first.1 provider request w later
          (find (is_held_by first.1 w) hosts)
          (find (is_free first.1) hosts)
        ≡ first
  settle_again leases provider request hosts w now later =
      elim (Option-cases (find (is_held_by leases w) hosts)) [
        | inr (c, e) ↦ rw (e, e)
        | inl idle ↦ elim (Option-cases (find (is_free leases) hosts)) [
          | inl full ↦ rw (idle, full, idle, full)
          | inr (c, e) ↦
              rw (idle, e, find-held_after leases w hosts c now idle e)
                (rw (get-granted leases c.name (grant c.name w exclusive now)))
        ]
      ]

  among_again :
      (leases : Leases) (provider : ProviderConfig) (request : HostSelectionRequest)
      (hosts : List HostConfig) (w : String) (now later : ℕ)
      → w ≢ ""
      → let first = resolve_among config leases provider request hosts (some w) now in
        resolve_among config first.1 provider request hosts (some w) later ≡ first
  unfolding resolve_among
  among_again leases provider request [] w now later named = refl
  among_again leases provider request (h ∷ hs) w now later named =
      let run = λ (t : Leases) (n : ℕ).
        resolve_among-settle config mode t provider request h hs w n named in
      rw (run leases now, run _ later) (settle_again leases provider request (h ∷ hs) w now later)

  pub unknown_lem :
      (leases : Leases) (request : HostSelectionRequest) (w : Option String) (now : ℕ)
      → lookup request.provider config.providers ≡ none
      → resolve_with_lease config leases request w now
        ≡ (err (unknown_provider request.provider), leases)
  unfolding resolve_with_lease
  unknown_lem leases request w now missing = rw (missing, resolve_with_lease)

  known_lem :
      (leases : Leases) (request : HostSelectionRequest) (w : Option String) (now : ℕ)
      (p : ProviderConfig)
      → lookup request.provider config.providers ≡ some p
      → resolve_with_lease config leases request w now
        ≡ resolve_among config leases p request (candidates p request) w now
  unfolding resolve_with_lease
  known_lem leases request w now p found = rw (found, resolve_with_lease)

  -- In exclusive mode, asking again for the same workspace, whose id is not empty, at any time, gives the same host under the same
  -- lease, or the same error, and changes no lease.
  pub resolve_with_lease_again :
      (leases : Leases) (request : HostSelectionRequest) (w : String) (now later : ℕ)
      → w ≢ ""
      → let first = resolve_with_lease config leases request (some w) now in
        resolve_with_lease config first.1 request (some w) later ≡ first
  unfolding resolve_with_lease
  resolve_with_lease_again leases request w now later named =
      elim (Option-cases (lookup request.provider config.providers)) [
        | inl missing ↦
            let unknown = λ (t : Leases) (n : ℕ). unknown_lem t request (some w) n missing in
            rw (unknown leases now) (unknown leases later)
        | inr (p, found) ↦
            let known = λ (t : Leases) (n : ℕ). known_lem t request (some w) n p found in
            rw (known leases now, known _ later)
              (among_again leases p request (candidates p request) w now later named)
      ]
