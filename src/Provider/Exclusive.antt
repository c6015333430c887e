-- ===== src/Provider/Exclusive.antt =====
-- `resolveWithLease` of plugin/src/provider.ts in exclusive mode.
use opencode_remote_ssh.Base.{
  ℕ, String, ◌≡◌, refl, ◌≢◌, ◌⊎◌, inl, inr, true, Option, none, some, List, [], ◌∷◌, In, find,
  find-In, lookup, insert, lookup-insert, string_dec, truthy, arith, Option-cases,
}
use opencode_remote_ssh.Types.{exclusive, HostConfig, ProviderConfig, LeaseRecord, Result, ok, err}
use opencode_remote_ssh.Config.{ResolvedPluginConfig}
use opencode_remote_ssh.Leases
use opencode_remote_ssh.Leases.{Leases, grant}
use opencode_remote_ssh.Provider.{
  HostSelectionRequest, Selected, candidates, is_free, is_held_by, acquire_first, select,
  resolve_free, resolve_for, resolve_among, resolve_with_lease, all_leased,
}

module _ (config : ResolvedPluginConfig) (mode : config.defaults.lease_mode ≡ exclusive) where
  abbrev taken_by :
      Leases → String → ℕ → Option HostConfig → Option (HostConfig × LeaseRecord) × Leases
  taken_by leases w now none = (none, leases)
  taken_by leases w now (some c) =
      let lease = grant c.name w exclusive now in (some (c, lease), insert c.name lease leases)

  -- The loop takes the first free candidate, and passes over the others without a trace.
  acquire_first-exclusive :
      (leases : Leases) (hosts : List HostConfig) (w : String) (now : ℕ)
      → acquire_first config leases hosts w now
        ≡ taken_by leases w now (find (is_free leases) hosts)
  unfolding acquire_first Leases.acquire is_free Leases.get
  acquire_first-exclusive leases [] w now = refl
  acquire_first-exclusive leases (c ∷ cs) w now = elim (Option-cases (lookup c.name leases)) [
    | inl free ↦ ground arith
    | inr (l, held) ↦ ground (arith, acquire_first-exclusive leases cs w now)
  ]

  -- What a resolution for workspace `w` may have done, by how it ended.
  abbrev pub Settled :
      Leases → ProviderConfig → HostSelectionRequest → String → Result Selected × Leases → Type 0
  Settled leases provider request w (err e, after) = after ≡ leases
  Settled leases provider request w (ok s, after) =
      In s.selection.host (candidates provider request)
      × ((l : LeaseRecord) × (s.lease ≡ some l)
          × (l.workspace_id ≡ w)
          × (Leases.get after s.selection.host.name ≡ some l)
          × ((Leases.get leases s.selection.host.name ≡ some l)
              ⊎ (Leases.get leases s.selection.host.name ≡ none)))
      × ((h : String) → h ≢ s.selection.host.name → Leases.get after h ≡ Leases.get leases h)

  held_lease :
      (leases : Leases) (w : String) (c : HostConfig)
      → is_held_by leases w c ≡ true
      → (l : LeaseRecord) × (Leases.get leases c.name ≡ some l) × (l.workspace_id ≡ w)
  unfolding is_held_by
  held_lease leases w c h = elim (Option-cases (Leases.get leases c.name)) [
    | inl free ↦ absurd (ground arith)
    | inr (l, held) ↦ (l, held, ground arith)
  ]

  free_lookup :
      (leases : Leases) (c : HostConfig) → is_free leases c ≡ true → Leases.get leases c.name ≡ none
  unfolding is_free
  free_lookup leases c h = ground arith

  -- The outcome, from the first candidate that `w` holds and the first that is free.
  abbrev pub settle :
      Leases
      → ProviderConfig
      → HostSelectionRequest
      → String
      → ℕ
      → Option HostConfig
      → Option HostConfig
      → Result Selected × Leases
  settle leases provider request w now (some c) free = (
    ok (record { selection = select config provider request c; lease = Leases.get leases c.name }),
    leases,
  )
  settle leases provider request w now none (some c) =
      let lease = grant c.name w exclusive now in
      (
        ok (record { selection = select config provider request c; lease = some lease }),
        insert c.name lease leases,
      )
  settle leases provider request w now none none = (err (all_leased request), leases)

  resolve_for-settle :
      (leases : Leases) (provider : ProviderConfig) (request : HostSelectionRequest)
      (hosts : List HostConfig) (w : String) (now : ℕ)
      → resolve_for config leases provider request hosts w now
        ≡ settle leases provider request w now
            (find (is_held_by leases w) hosts)
            (find (is_free leases) hosts)
  unfolding resolve_for
  resolve_for-settle leases provider request hosts w now =
      ground (arith, acquire_first-exclusive leases hosts w now)

  settle-Settled :
      (leases : Leases) (provider : ProviderConfig) (request : HostSelectionRequest) (w : String)
      (now : ℕ) (own free : Option HostConfig)
      → find (is_held_by leases w) (candidates provider request) ≡ own
      → find (is_free leases) (candidates provider request) ≡ free
      → Settled leases provider request w (settle leases provider request w now own free)
  unfolding select Leases.get
  settle-Settled leases provider request w now (some c) free e f =
      let (member, holds) = find-In (is_held_by leases w) _ c e in
      let (l, held, own) = held_lease leases w c holds in
      (member, (l, held, own, held, inl held), λ h n. refl)
  settle-Settled leases provider request w now none (some c) e f =
      let (member, open_) = find-In (is_free leases) _ c f in
      let lease = grant c.name w exclusive now in
      (
        member,
        (
          lease,
          refl,
          refl,
          ground (arith, lookup-insert c.name c.name lease leases),
          inr (free_lookup leases c open_),
        ),
        λ h n. ground (arith, lookup-insert h c.name lease leases),
      )
  settle-Settled leases provider request w now none none e f = refl

  pub truthy_of_ne : (w : String) → w ≢ "" → truthy (some w) ≡ some w
  truthy_of_ne w named = ground arith

  -- With a candidate at hand the resolution comes down to the two searches.
  pub resolve_among-settle :
      (leases : Leases) (provider : ProviderConfig) (request : HostSelectionRequest)
      (h : HostConfig) (hs : List HostConfig) (w : String) (now : ℕ)
      → w ≢ ""
      → resolve_among config leases provider request (h ∷ hs) (some w) now
        ≡ settle leases provider request w now
            (find (is_held_by leases w) (h ∷ hs))
            (find (is_free leases) (h ∷ hs))
  unfolding resolve_among
  resolve_among-settle leases provider request h hs w now named =
      rw (truthy_of_ne w named, resolve_among)
        (resolve_for-settle leases provider request (h ∷ hs) w now)

  resolve_among-Settled :
      (leases : Leases) (provider : ProviderConfig) (request : HostSelectionRequest)
      (hosts : List HostConfig) (w : String) (now : ℕ)
      → w ≢ ""
      → candidates provider request ≡ hosts
      → Settled leases provider request w
          (resolve_among config leases provider request hosts (some w) now)
  unfolding resolve_among
  resolve_among-Settled leases provider request [] w now named e = refl
  resolve_among-Settled leases provider request (h ∷ hs) w now named e =
      rw (resolve_among-settle leases provider request h hs w now named)
        (settle-Settled leases provider request w now _ _ (rw e) (rw e))

  -- In exclusive mode, a resolution at a configured provider for a workspace whose id is not empty
  -- either throws and leaves the leases alone, or selects a candidate host, which the workspace held already or which was free, and afterwards
  -- holds it under the lease that is returned. The leases of all other hosts are as before.
  pub resolve_with_lease-Settled :
      (leases : Leases) (request : HostSelectionRequest) (w : String) (now : ℕ)
      (provider : ProviderConfig)
      → w ≢ ""
      → lookup request.provider config.providers ≡ some provider
      → Settled leases provider request w (resolve_with_lease config leases request (some w) now)
  unfolding resolve_with_lease resolve_among
  resolve_with_lease-Settled leases request w now provider named found =
      rw (found, resolve_with_lease)
        (resolve_among-Settled leases provider request (candidates provider request) w now named
          refl)

  settle-keeps :
      (leases : Leases) (provider : ProviderConfig) (request : HostSelectionRequest) (w : String)
      (now : ℕ) (hosts : List HostConfig) (own : Option HostConfig) (host : String)
      (l : LeaseRecord)
      → Leases.get leases host ≡ some l
      → Leases.get (settle leases provider request w now own (find (is_free leases) hosts)).1 host
        ≡ some l
  unfolding is_free Leases.get
  settle-keeps leases provider request w now hosts own host l held =
      elim (Option-cases (find (is_free leases) hosts)) [
        | inl full ↦ ground arith
        | inr (c, e) ↦
            let lease = grant c.name w exclusive now in
            ground
              (arith, find-In (is_free leases) hosts c e, lookup-insert host c.name lease leases)
      ]

  among-keeps :
      (leases : Leases) (provider : ProviderConfig) (request : HostSelectionRequest)
      (hosts : List HostConfig) (w : Option String) (now : ℕ) (host : String) (l : LeaseRecord)
      → Leases.get leases host ≡ some l
      → Leases.get (resolve_among config leases provider request hosts w now).1 host ≡ some l
  unfolding resolve_among
  among-keeps leases provider request [] w now host l held = held
  among-keeps leases provider request (h ∷ hs) none now host l held =
      unfold resolve_free in ground arith
  among-keeps leases provider request (h ∷ hs) (some w) now host l held = elim (string_dec w "") [
    | yes blank ↦ unfold resolve_free in ground arith
    | no named ↦
        rw (resolve_among-settle leases provider request h hs w now named)
          (settle-keeps leases provider request w now (h ∷ hs) _ host l held)
  ]

  -- In exclusive mode, whatever is resolved, with a workspace or without, every lease that exists
  -- stays as it is.
  pub resolve_with_lease-keeps :
      (leases : Leases) (request : HostSelectionRequest) (w : Option String) (now : ℕ)
      (host : String) (l : LeaseRecord)
      → Leases.get leases host ≡ some l
      → Leases.get (resolve_with_lease config leases request w now).1 host ≡ some l
  unfolding resolve_with_lease
  resolve_with_lease-keeps leases request w now host l held =
      elim (Option-cases (lookup request.provider config.providers)) [
        | inl missing ↦ rw (missing, resolve_with_lease) held
        | inr (p, found) ↦
            rw (found, resolve_with_lease)
              (among-keeps leases p request (candidates p request) w now host l held)
      ]
