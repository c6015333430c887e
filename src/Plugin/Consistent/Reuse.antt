-- ===== src/Plugin/Consistent/Reuse.antt =====
-- Reusing and removing bindings (plugin/src/index.ts), and the invariant.
use opencode_remote_ssh.Base.{
  String, ◌≡◌, inl, inr, Option, none, some, truthy, or_default, ◌==◌, ◌||◌, not, arith,
  Option-cases,
}
use opencode_remote_ssh.Types.{exclusive, ResolvedHost, Error, WorkspaceBinding}
use opencode_remote_ssh.Config.{ResolvedPluginConfig}
use opencode_remote_ssh.Provider
use opencode_remote_ssh.Provider.{HostSelectionRequest}
use opencode_remote_ssh.State.{Bindings}
use opencode_remote_ssh.Effects.{Env}
use opencode_remote_ssh.Ssh.Recover.{ensure_recovered_binding}
use opencode_remote_ssh.Ssh.Recover.Identity.{IsRecovery}
use opencode_remote_ssh.Plugin.{
  Plugin, pure, try_catch, lift, ◌>>=◌, ◌>>◌, release, replace_binding, delete_binding,
}
use opencode_remote_ssh.Plugin.Rules.{
  Ends, bind-Ends, bind-Always, if-Always, try_catch-Ends, lift-Returns,
}
use opencode_remote_ssh.Plugin.Remote.{create_remote_session}
use opencode_remote_ssh.Plugin.Connect.{
  is_removed, host_request, with_session, reuse_selected, try_reuse, store_reused, resume,
  reuse_entry, drop_entry,
}
use opencode_remote_ssh.Plugin.Consistent.{Sound-release}
use opencode_remote_ssh.Plugin.Consistent.Keeping.{
  Kept, Keeping, Backed, Entry, drop-Keeping, replace_binding-Keeping, recovery-IsBacked,
  session-IsBacked, recover-Ends, acquired-Keeping,
}

module _ (env : Env) (w : String) (before : Bindings) where
  with_session-Ends :
      (config : ResolvedPluginConfig) (r : WorkspaceBinding) (p : Plugin)
      → Backed w before r p.leases p.bindings
      → Ends
          (λ c q. Backed w before c q.leases q.bindings)
          (λ q. Kept w before q.leases q.bindings)
          (with_session env config r p)
  unfolding with_session
  with_session-Ends config r p h = elim (Option-cases (truthy r.session_id)) [
    | inr (s, given) ↦ rw (given, with_session) h
    | inl blank ↦
        rw (blank, with_session)
          (bind-Ends (λ _ q. Unit {0} × Backed w before r q.leases q.bindings)
            (λ c q. Backed w before c q.leases q.bindings) (λ q. Kept w before q.leases q.bindings)
            (lift (create_remote_session env r))
            (λ (session : String). pure (record r { session_id = some session })) p
            (lift-Returns (Backed w before r) (Kept w before) (λ _. Unit {0})
              (create_remote_session env r) p (λ _ _. tt) h (λ k. k.0))
            (λ session q k. (k.1.0, session-IsBacked q.leases w r (some session) k.1.1)))
  ]

module _ (env : Env) (config : ResolvedPluginConfig) (mode : config.defaults.lease_mode ≡ exclusive)
    (b : WorkspaceBinding) (before : Bindings) where
  store_reused-Keeping :
      (c : WorkspaceBinding) (p : Plugin)
      → Backed b.workspace_id before c p.leases p.bindings
      → Keeping b.workspace_id before (store_reused env config c p)
  unfolding store_reused
  store_reused-Keeping c p (k, g) =
      bind-Always (Kept b.workspace_id before) (replace_binding env c)
        (λ (_ : Unit {0}). pure (some c)) p
        (replace_binding-Keeping env b.workspace_id before c p g k) (λ _ v j. j)

  resume-Keeping :
      (r : WorkspaceBinding) (p : Plugin)
      → Backed b.workspace_id before r p.leases p.bindings
      → Keeping b.workspace_id before (resume env config r p)
  unfolding resume
  resume-Keeping r p h =
      let w = b.workspace_id in
      bind-Ends (λ c u. Backed w before c u.leases u.bindings)
        (λ _ u. Kept w before u.leases u.bindings) (λ u. Kept w before u.leases u.bindings)
        (with_session env config r) (store_reused env config) p
        (with_session-Ends env w before config r p h) store_reused-Keeping

  reuse_selected-Keeping :
      (selection : ResolvedHost) (p : Plugin)
      → Entry b before p.leases p.bindings
      → Keeping b.workspace_id before (reuse_selected env config b selection p)
  unfolding reuse_selected Provider.release
  reuse_selected-Keeping selection p (k, e) =
      let w = b.workspace_id in
      if-Always (Kept w before) (selection.host.name == b.host)
        (lift (ensure_recovered_binding env config b selection) >>= resume env config)
        (release selection.host.name w >> pure none) p
        (λ here.
          bind-Ends (λ r q. IsRecovery b r × Backed w before b q.leases q.bindings)
            (λ _ q. Kept w before q.leases q.bindings) (λ q. Kept w before q.leases q.bindings)
            (lift (ensure_recovered_binding env config b selection)) (resume env config) p
            (recover-Ends env config mode b before selection p (k, e))
            (λ r q h. resume-Keeping r q (h.1.0, recovery-IsBacked q.leases w b r h.0 h.1.1)))
        (λ away. (
          Sound-release p.leases p.bindings k.0 selection.host.name w
              (λ c found same. ground arith),
          k.1,
        ))

  reuse_entry-Keeping :
      (provider_name : String) (host : Option String) (p : Plugin)
      → Entry b before p.leases p.bindings
      → Keeping b.workspace_id before (reuse_entry env config provider_name host b p)
  unfolding reuse_entry
  reuse_entry-Keeping provider_name host p entry =
      acquired-Keeping env config mode b before
        (host_request provider_name (some (or_default host b.host))) (reuse_selected env config b) p
        entry reuse_selected-Keeping

  drop_entry-Keeping :
      (x : Error) (p : Plugin)
      → Kept b.workspace_id before p.leases p.bindings
      → Keeping b.workspace_id before (drop_entry env config b x p)
  unfolding drop_entry
  drop_entry-Keeping x p k =
      let w = b.workspace_id in
      bind-Always (Kept w before) (release b.host w >> delete_binding env w)
        (λ (_ : Unit {0}). pure none) p (drop-Keeping env w before b.host p k) (λ _ u h. h)

  -- In exclusive mode, one round of `findReusableBinding` for a stored binding leads from a state in
  -- order to one, whether it throws or not, and touches only the binding that it looks at.
  pub try_reuse-Keeping :
      (provider_name : String) (host : Option String) (p : Plugin)
      → Entry b before p.leases p.bindings
      → Keeping b.workspace_id before (try_reuse env config provider_name host b p)
  unfolding try_reuse
  try_reuse-Keeping provider_name host p (k, e) =
      let w = b.workspace_id in
      let K = Kept w before in
      if-Always K (is_removed b.status || not (b.provider == provider_name)) (pure none)
        (try_catch (reuse_entry env config provider_name host b) (drop_entry env config b)) p
        (λ skip. k)
        (λ tried.
          try_catch-Ends (λ _ q. K q.leases q.bindings) (λ q. K q.leases q.bindings)
            (λ q. K q.leases q.bindings) (reuse_entry env config provider_name host b)
            (drop_entry env config b) p (reuse_entry-Keeping provider_name host p (k, e))
            (λ x u h. drop_entry-Keeping x u h))
