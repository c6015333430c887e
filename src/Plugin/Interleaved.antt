-- ===== src/Plugin/Interleaved.antt =====
-- A workspace that is removed while `ensureBindingReady` waits for its recovery
-- (plugin/src/index.ts): both are calls of the plugin, and both wait at an `await`.
use opencode_remote_ssh.Base.{
  ◌≡◌, ◌≢◌, false, some, lookup, insert, lookup-insert, arith, ap, ◌∙◌, sym,
}
use opencode_remote_ssh.Types.{WorkspaceBinding, ok}
use opencode_remote_ssh.Config.{ResolvedPluginConfig}
use opencode_remote_ssh.Leases.Holding.{holder}
use opencode_remote_ssh.State
use opencode_remote_ssh.Effects.{Env}
use opencode_remote_ssh.Plugin.{Plugin, replace_binding}
use opencode_remote_ssh.Plugin.Connect.{is_unchanged, remove_binding, store_recovered}
use opencode_remote_ssh.Plugin.Disconnected.{IsDown, after-ok, remove_binding-IsDown}

module _ (env : Env) (config : ResolvedPluginConfig) (b recovered : WorkspaceBinding) where
  store_recovered-stores :
      (p : Plugin)
      → is_unchanged env config recovered b ≡ false
      → let q = (store_recovered env config b recovered p).1 in
        (q.bindings ≡ insert recovered.workspace_id recovered p.bindings) × (q.leases ≡ p.leases)
  unfolding store_recovered replace_binding State.replace
  store_recovered-stores p changed = ground arith

  -- If a binding is removed while its recovery is awaited, and the recovery changes it, the recovered
  -- binding is stored all the same when the recovery ends. The host is not leased to the workspace then.
  pub store_recovered-strays :
      (p : Plugin)
      → recovered.workspace_id ≡ b.workspace_id
      → is_unchanged env config recovered b ≡ false
      → (remove_binding env b p).0 ≡ ok tt
      → let q = (store_recovered env config b recovered (remove_binding env b p).1).1 in
        (lookup b.workspace_id q.bindings ≡ some recovered)
        × (holder q.leases b.host ≢ some b.workspace_id)
  store_recovered-strays p same_id changed gone =
      let removed_at = (remove_binding env b p).1 in
      let (missing, free) =
        after-ok (λ _ q. IsDown q b) (remove_binding env b p) tt (remove_binding-IsDown env b p)
          gone in
      let (bindings, leases) = store_recovered-stores removed_at changed in
      (
        ap (lookup b.workspace_id) bindings
            ∙ lookup-insert b.workspace_id recovered.workspace_id recovered removed_at.bindings
            ∙ ground arith,
        λ e. free (ap (λ l. holder l b.host) (sym leases) ∙ e),
      )
