-- ===== src/Plugin/Consistent/Ready.antt =====
-- `ensureBindingReady` and `remote-status` of plugin/src/index.ts, and the invariant.
use opencode_remote_ssh.Base.{◌≡◌, none, some, lookup, lookup-erase, erase, arith}
use opencode_remote_ssh.Types.{exclusive, ResolvedHost, WorkspaceBinding}
use opencode_remote_ssh.Config.{ResolvedPluginConfig}
use opencode_remote_ssh.Leases.{Leases}
use opencode_remote_ssh.Provider
use opencode_remote_ssh.Provider.{HostSelectionRequest}
use opencode_remote_ssh.State
use opencode_remote_ssh.State.{Bindings}
use opencode_remote_ssh.Effects.{Env, write_state}
use opencode_remote_ssh.Ssh.Recover.{ensure_recovered_binding}
use opencode_remote_ssh.Ssh.Recover.Identity.{IsRecovery}
use opencode_remote_ssh.Plugin.{
  Plugin, pure, lift, ◌>>=◌, ◌>>◌, release, replace_binding, delete_binding,
}
use opencode_remote_ssh.Plugin.Rules.{
  bind-Ends, bind-Always, if-Always, try_catch-Ends, lift-Returns,
}
use opencode_remote_ssh.Plugin.Connect.{
  host_request, recover_selected, store_recovered, ensure_binding_ready, is_unchanged,
}
use opencode_remote_ssh.Plugin.Consistent.{Sound-release, Sound-erase, Frame-erase}
use opencode_remote_ssh.Plugin.Consistent.Keeping.{
  Kept, Keeping, Backed, Entry, replace_binding-Keeping, recovery-IsBacked, recover-Ends,
  acquired-Keeping,
}
use opencode_remote_ssh.Plugin.Tools.{live, lost, status_entry}
use opencode_remote_ssh.Types.Messages.{error_message}

module _ (env : Env) (config : ResolvedPluginConfig) (mode : config.defaults.lease_mode ≡ exclusive)
    (b : WorkspaceBinding) (before : Bindings) where
  store_recovered-Keeping :
      (r : WorkspaceBinding) (p : Plugin)
      → Backed b.workspace_id before r p.leases p.bindings
      → Keeping b.workspace_id before (store_recovered env config b r p)
  unfolding store_recovered
  store_recovered-Keeping r p (k, g) =
      let w = b.workspace_id in
      let K = Kept w before in
      if-Always K (is_unchanged env config r b) (pure b) (replace_binding env r >> pure r) p
        (λ same. k)
        (λ changed.
          bind-Always K (replace_binding env r) (λ (_ : Unit {0}). pure r) p
            (replace_binding-Keeping env w before r p g k) (λ _ u h. h))

  recover_selected-Keeping :
      (selection : ResolvedHost) (p : Plugin)
      → Entry b before p.leases p.bindings
      → Keeping b.workspace_id before (recover_selected env config b selection p)
  unfolding recover_selected
  recover_selected-Keeping selection p entry =
      let w = b.workspace_id in
      bind-Ends (λ r q. IsRecovery b r × Backed w before b q.leases q.bindings)
        (λ _ q. Kept w before q.leases q.bindings) (λ q. Kept w before q.leases q.bindings)
        (lift (ensure_recovered_binding env config b selection)) (store_recovered env config b) p
        (recover-Ends env config mode b before selection p entry)
        (λ r q h. store_recovered-Keeping r q (h.1.0, recovery-IsBacked q.leases w b r h.0 h.1.1))

  -- In exclusive mode, `ensureBindingReady` for a stored binding leads from a `Sound` state to one,
  -- whether it throws or not, and touches only that binding.
  pub ensure_binding_ready-Keeping :
      (p : Plugin)
      → Entry b before p.leases p.bindings
      → Keeping b.workspace_id before (ensure_binding_ready env config b p)
  unfolding ensure_binding_ready
  ensure_binding_ready-Keeping p (k, e) =
      acquired-Keeping env config mode b before (host_request b.provider (some b.host))
        (recover_selected env config b) p (k, e) recover_selected-Keeping

  -- What `remote-status` does with a binding that cannot be recovered.
  forget-Keeping :
      {A : Type 0} (x : A) (p : Plugin)
      → Kept b.workspace_id before p.leases p.bindings
      → Keeping b.workspace_id before
          ((delete_binding env b.workspace_id >> (release b.host b.workspace_id >> pure x)) p)
  unfolding delete_binding State.delete Provider.release
  forget-Keeping x p (s, f) =
      let w = b.workspace_id in
      let after = erase w p.bindings in
      let gone : lookup w after ≡ none = ground (arith, lookup-erase w w p.bindings) in
      let Gone : Leases → Bindings → Type 0 =
        λ leases bindings. Kept w before leases bindings × (lookup w bindings ≡ none) in
      bind-Ends (λ _ q. Unit {0} × Gone q.leases q.bindings)
        (λ _ q. Kept w before q.leases q.bindings) (λ q. Kept w before q.leases q.bindings)
        (delete_binding env w) (λ (_ : Unit {0}). release b.host w >> pure x) p
        (lift-Returns Gone (Kept w before) (λ _. Unit {0}) (write_state env (State.save after))
          (record p { bindings = after }) (λ _ _. tt)
          ((Sound-erase p.leases p.bindings s w, Frame-erase w before p.bindings f), gone)
          (λ k. k.0))
        (λ _ q h. (
          Sound-release q.leases q.bindings h.1.0.0 b.host w (λ c found same. ground arith),
          h.1.0.1,
        ))

  -- One round of `remote-status`.
  pub status_entry-Keeping :
      (p : Plugin)
      → Entry b before p.leases p.bindings
      → Keeping b.workspace_id before (status_entry env config b p)
  unfolding status_entry
  status_entry-Keeping p entry =
      let w = b.workspace_id in
      let K = Kept w before in
      try_catch-Ends (λ _ q. K q.leases q.bindings) (λ q. K q.leases q.bindings)
        (λ q. K q.leases q.bindings) (ensure_binding_ready env config b >>= (λ r. pure (live r)))
        (λ x. delete_binding env w >> (release b.host w >> pure (lost b (error_message x)))) p
        (bind-Always K (ensure_binding_ready env config b) (λ r. pure (live r)) p
          (ensure_binding_ready-Keeping p entry) (λ _ u h. h))
        (λ x u h. forget-Keeping (lost b (error_message x)) u h)
