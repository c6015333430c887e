-- ===== src/Provider/Held.antt =====
-- `acquireResolved` of plugin/src/provider.ts, asked by name for a host that the workspace holds.
use opencode_remote_ssh.Base.{
  ℕ, String, ◌≡◌, refl, ◌≢◌, inl, inr, true, false, Option, none, some, List, [], ◌∷◌, In, find,
  find-In, find-none, All-In, truthy, lookup, arith, Option-cases, ap, ◌∙◌, sym, subst,
}
use opencode_remote_ssh.Types.{exclusive, HostConfig, ResolvedHost, ProviderConfig, Result, ok, err}
use opencode_remote_ssh.Config.{ResolvedPluginConfig}
use opencode_remote_ssh.Leases
use opencode_remote_ssh.Leases.{Leases}
use opencode_remote_ssh.Leases.Holding.{holder}
use opencode_remote_ssh.Provider.{
  HostSelectionRequest, Selected, candidates, is_held_by, is_free, select, to_resolved,
  resolve_among, resolve_with_lease, acquire_resolved, selection_only,
}
use opencode_remote_ssh.Provider.Candidates.{candidates-named, candidates-labels}
use opencode_remote_ssh.Provider.Exclusive.{
  settle, resolve_among-settle, Settled, resolve_with_lease-Settled,
}
use opencode_remote_ssh.Provider.Availability.{unknown_lem}

held-is_held_by :
    (leases : Leases) (w : String) (c : HostConfig)
    → holder leases c.name ≡ some w
    → is_held_by leases w c ≡ true
unfolding is_held_by Leases.get
held-is_held_by leases w c e = ground arith

is_held_by-held :
    (leases : Leases) (w : String) (c : HostConfig)
    → is_held_by leases w c ≡ true
    → holder leases c.name ≡ some w
unfolding is_held_by Leases.get
is_held_by-held leases w c e = ground arith

find-holding :
    (leases : Leases) (w : String) (hosts : List HostConfig) (c : HostConfig)
    → In c hosts
    → holder leases c.name ≡ some w
    → (d : HostConfig) × (find (is_held_by leases w) hosts ≡ some d)
find-holding leases w hosts c member held = elim (Option-cases (find (is_held_by leases w) hosts)) [
  | inr found ↦ found
  | inl nobody ↦
      let free =
        All-In (λ x. is_held_by leases w x ≡ false) hosts c
          (find-none (is_held_by leases w) hosts nobody) member in
      absurd (ground (arith, held-is_held_by leases w c held))
]

module _ (config : ResolvedPluginConfig) (mode : config.defaults.lease_mode ≡ exclusive)
    (leases : Leases) (request : HostSelectionRequest) (w : String) (named : w ≢ "") (now : ℕ)
    (provider : ProviderConfig) where
  among-holding :
      (hosts : List HostConfig) (d : HostConfig)
      → find (is_held_by leases w) hosts ≡ some d
      → resolve_among config leases provider request hosts (some w) now ≡ (
        ok (record {
          selection = select config provider request d;
          lease = Leases.get leases d.name;
        }),
        leases,
      )
  among-holding [] d e = absurd (cc)
  among-holding (h ∷ hs) d e =
      resolve_among-settle config mode leases provider request h hs w now named
      ∙ ap
          (λ own.
            settle config mode leases provider request w now own (find (is_free leases) (h ∷ hs)))
          e

  -- In exclusive mode, a workspace whose id is not empty that asks by name for a host of the
  -- provider which it holds is given a host that it holds, and no lease changes.
  pub acquire_resolved-held :
      (host : String) (c : HostConfig)
      → truthy request.host ≡ some host
      → lookup request.provider config.providers ≡ some provider
      → In c provider.hosts
      → c.name ≡ host
      → holder leases host ≡ some w
      → (r : ResolvedHost) × (acquire_resolved config leases request w now ≡ (ok r, leases))
        × (holder leases r.host.name ≡ some w)
  unfolding acquire_resolved resolve_with_lease select to_resolved
  acquire_resolved-held host c by_name found member same held =
      let candidate = (candidates-named provider request c host by_name).1 (member, inl same) in
      let own : holder leases c.name ≡ some w =
        subst (λ h. holder leases h ≡ some w) (sym same) held in
      let (d, first) = find-holding leases w (candidates provider request) c candidate own in
      (
        select config provider request d,
        rw (found, resolve_with_lease)
            (ap (selection_only config) (among-holding (candidates provider request) d first)),
        is_held_by-held leases w d
            (find-In (is_held_by leases w) (candidates provider request) d first).1,
      )

module _ (config : ResolvedPluginConfig) (mode : config.defaults.lease_mode ≡ exclusive)
    (leases : Leases) (request : HostSelectionRequest) (w : String) (named : w ≢ "") (now : ℕ) where
  settle-provider :
      (provider : ProviderConfig) (own free : Option HostConfig) (s : Selected)
      → (settle config mode leases provider request w now own free).0 ≡ ok s
      → s.selection.provider ≡ request.provider
  unfolding select to_resolved
  settle-provider provider (some c) free s e = ground arith
  settle-provider provider none (some c) s e = ground arith
  settle-provider provider none none s e = absurd (cc)

  among-provider :
      (provider : ProviderConfig) (hosts : List HostConfig) (s : Selected)
      → (resolve_among config leases provider request hosts (some w) now).0 ≡ ok s
      → s.selection.provider ≡ request.provider
  unfolding resolve_among
  among-provider provider [] s e = absurd (cc)
  among-provider provider (h ∷ hs) s e =
      settle-provider provider (find (is_held_by leases w) (h ∷ hs))
        (find (is_free leases) (h ∷ hs)) s
        (rw (resolve_among-settle config mode leases provider request h hs w now named) at e)

  candidate-host :
      (provider : ProviderConfig) (c : HostConfig)
      → In c (candidates provider request)
      → In c provider.hosts
  candidate-host provider c m = elim (Option-cases (truthy request.host)) [
    | inl free ↦ ((candidates-labels provider request c free).0 m).0
    | inr (host, given) ↦ ((candidates-named provider request c host given).0 m).0
  ]

  selected-host :
      (provider : ProviderConfig) (out : Result Selected × Leases) (r : ResolvedHost)
      → Settled config mode leases provider request w out
      → (selection_only config out).0 ≡ ok r
      → In r.host provider.hosts
  selected-host provider (err x, after) r s e = absurd (cc)
  selected-host provider (ok t, after) r (member, _, _) e =
      let same : t.selection ≡ r = ground arith in
      subst (λ x. In x.host provider.hosts) same (candidate-host provider t.selection.host member)

  selected-provider :
      (out : Result Selected × Leases) (r : ResolvedHost)
      → ((s : Selected) → out.0 ≡ ok s → s.selection.provider ≡ request.provider)
      → (selection_only config out).0 ≡ ok r
      → r.provider ≡ request.provider
  selected-provider (err x, after) r h e = absurd (cc)
  selected-provider (ok t, after) r h e = ground (arith, h t refl)

  -- A selected host is one of the provider that was asked for.
  pub acquire_resolved-member :
      (r : ResolvedHost)
      → (acquire_resolved config leases request w now).0 ≡ ok r
      → (r.provider ≡ request.provider)
        × ((provider : ProviderConfig) × (lookup request.provider config.providers ≡ some provider)
            × In r.host provider.hosts)
  unfolding acquire_resolved
  acquire_resolved-member r e = elim (Option-cases (lookup request.provider config.providers)) [
    | inl missing ↦
        absurd (ground (arith, unknown_lem config mode leases request (some w) now missing))
    | inr (p, found) ↦
        let out = resolve_with_lease config leases request (some w) now in
        (
          selected-provider out r
              (λ s f.
                among-provider p (candidates p request) s
                  (unfold resolve_with_lease in rw (found, resolve_with_lease) at f))
              e,
          (
            p,
            found,
            selected-host p out r
                (resolve_with_lease-Settled config mode leases request w now p named found) e,
          ),
        )
  ]
