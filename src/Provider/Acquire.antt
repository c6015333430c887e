-- ===== src/Provider/Acquire.antt =====
-- `acquireResolved` of plugin/src/provider.ts in exclusive mode, as its callers see it.
use opencode_remote_ssh.Base.{
  ℕ, String, ◌≡◌, ◌≢◌, inl, inr, some, lookup, arith, Option-cases, ap, ◌∙◌,
}
use opencode_remote_ssh.Types.{
  exclusive, ResolvedHost, ProviderConfig, LeaseRecord, Result, ok, err,
}
use opencode_remote_ssh.Config.{ResolvedPluginConfig}
use opencode_remote_ssh.Leases
use opencode_remote_ssh.Leases.{Leases}
use opencode_remote_ssh.Leases.Holding.{holder}
use opencode_remote_ssh.Provider.{
  HostSelectionRequest, Selected, resolve_with_lease, acquire_resolved, selection_only,
}
use opencode_remote_ssh.Provider.Availability.{unknown_lem}
use opencode_remote_ssh.Provider.Exclusive.{
  Settled, resolve_with_lease-Settled, resolve_with_lease-keeps,
}

holder-get :
    (leases : Leases) (h : String) (l : LeaseRecord)
    → Leases.get leases h ≡ some l
    → holder leases h ≡ some l.workspace_id
unfolding Leases.get
holder-get leases h l e = ground arith

get-holder :
    (leases : Leases) (h w : String)
    → holder leases h ≡ some w
    → (l : LeaseRecord) × (Leases.get leases h ≡ some l) × (l.workspace_id ≡ w)
unfolding Leases.get
get-holder leases h w e = elim (Option-cases (lookup h leases)) [
  | inl free ↦ absurd (ground arith)
  | inr (l, held) ↦ (l, held, ground arith)
]

holder-of_get :
    (s t : Leases) (h : String) → Leases.get s h ≡ Leases.get t h → holder s h ≡ holder t h
unfolding Leases.get
holder-of_get s t h e = ground arith

module _ (config : ResolvedPluginConfig) (mode : config.defaults.lease_mode ≡ exclusive)
    (leases : Leases) (request : HostSelectionRequest) (w : String) (now : ℕ) where
  same_leases :
      (acquire_resolved config leases request w now).1
      ≡ (resolve_with_lease config leases request (some w) now).1
  unfolding acquire_resolved
  same_leases = ground arith

  -- Whoever holds a host goes on holding it.
  pub acquire_resolved-keeps :
      (h v : String)
      → holder leases h ≡ some v
      → holder (acquire_resolved config leases request w now).1 h ≡ some v
  acquire_resolved-keeps h v e =
      let (l, held, own) = get-holder leases h v e in
      rw same_leases (
        holder-get _ h l (resolve_with_lease-keeps config mode leases request (some w) now h l held)
        ∙ ap some own)

  Settled-takes :
      (p : ProviderConfig) (out : Result Selected × Leases) (r : ResolvedHost)
      → Settled config mode leases p request w out
      → (selection_only config out).0 ≡ ok r
      → (holder (selection_only config out).1 r.host.name ≡ some w)
        × ((h : String)
            → h ≢ r.host.name
            → holder (selection_only config out).1 h ≡ holder leases h)
  Settled-takes p (err x, after) r s e = absurd (cc)
  Settled-takes p (ok t, after) r (member, (l, given, own, held, before), rest) e =
      let same : t.selection ≡ r = ground arith in
      rw (← same) (
        holder-get after t.selection.host.name l held ∙ ap some own,
        λ h n. holder-of_get after leases h (rest h n),
      )

  -- The selected host is held by the workspace, and the others are as before.
  pub acquire_resolved-takes :
      (r : ResolvedHost)
      → w ≢ ""
      → (acquire_resolved config leases request w now).0 ≡ ok r
      → (holder (acquire_resolved config leases request w now).1 r.host.name ≡ some w)
        × ((h : String)
            → h ≢ r.host.name
            → holder (acquire_resolved config leases request w now).1 h ≡ holder leases h)
  unfolding acquire_resolved
  acquire_resolved-takes r named e =
      elim (Option-cases (lookup request.provider config.providers)) [
        | inl missing ↦
            absurd (ground (arith, unknown_lem config mode leases request (some w) now missing))
        | inr (p, found) ↦
            Settled-takes p (resolve_with_lease config leases request (some w) now) r
              (resolve_with_lease-Settled config mode leases request w now p named found) e
      ]
