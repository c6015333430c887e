-- ===== src/Plugin/Consistent/Targets.antt =====
-- The calls of the adapter that use or remove a workspace (plugin/src/index.ts), and the invariant.
use opencode_remote_ssh.Base.{String, ◌<>◌, ◌≡◌, refl, Option, none, some, lookup, sym, subst}
use opencode_remote_ssh.Types.{
  exclusive, WorkspaceInfo, WorkspaceTarget, WorkspaceBinding, not_active,
}
use opencode_remote_ssh.Config.{ResolvedPluginConfig}
use opencode_remote_ssh.State
use opencode_remote_ssh.Effects.{Env}
use opencode_remote_ssh.Ssh.Probe.{local_url}
use opencode_remote_ssh.Plugin.{Plugin, Action, pure, throw, ◌>>=◌}
use opencode_remote_ssh.Plugin.Rules.{Always, bind-Always}
use opencode_remote_ssh.Plugin.Connect.{ensure_binding_ready, get_ready_binding, remove_binding}
use opencode_remote_ssh.Plugin.Adapter.{remove_workspace, get_target}
use opencode_remote_ssh.Plugin.Consistent.{Sound}
use opencode_remote_ssh.Plugin.Consistent.Ready.{ensure_binding_ready-Keeping}
use opencode_remote_ssh.Plugin.Consistent.Calls.{ends-Sound, remove_binding-Sound}

pub remove_workspace-Sound :
    (env : Env) (config : ResolvedPluginConfig) (workspace : WorkspaceInfo) (p : Plugin)
    → Sound p.leases p.bindings
    → Always Sound (remove_workspace env config workspace p)
unfolding remove_workspace
remove_workspace-Sound env config workspace p s = go (State.get p.bindings workspace.id)
  where
    go :
        (found : Option WorkspaceBinding)
        → let m : Action (Unit {0}) = elim found [
          | none ↦ pure tt
          | some b ↦ remove_binding env b
        ] in
          Always Sound (m p)
    go none = s
    go (some b) = remove_binding-Sound env b p s

module _ (env : Env) (config : ResolvedPluginConfig)
    (mode : config.defaults.lease_mode ≡ exclusive) where
  ready-Sound :
      (b : WorkspaceBinding) (p : Plugin)
      → lookup b.workspace_id p.bindings ≡ some b
      → Sound p.leases p.bindings
      → Always Sound (ensure_binding_ready env config b p)
  ready-Sound b p stored s =
      ends-Sound b.workspace_id p.bindings (ensure_binding_ready env config b p)
        (ensure_binding_ready-Keeping env config mode b p.bindings p ((s, λ v n. refl), stored))

  get_ready_binding-Sound :
      (workspace_id : String) (p : Plugin)
      → Sound p.leases p.bindings
      → Always Sound (get_ready_binding env config workspace_id p)
  unfolding get_ready_binding State.get
  get_ready_binding-Sound workspace_id p s = go (lookup workspace_id p.bindings) refl
    where
      go :
          (found : Option WorkspaceBinding)
          → lookup workspace_id p.bindings ≡ found
          → let m : Action (Option WorkspaceBinding) = elim found [
            | none ↦ pure none
            | some b ↦ do r ← ensure_binding_ready env config b; pure (some r)
          ] in
            Always Sound (m p)
      go none e = s
      go (some b) e =
          bind-Always Sound (ensure_binding_ready env config b) (λ r. pure (some r)) p
            (ready-Sound b p
              (subst (λ w. lookup w p.bindings ≡ some b) (sym (s.backed workspace_id b e).own) e) s)
            (λ _ v i. i)

  pub get_target-Sound :
      (workspace : WorkspaceInfo) (p : Plugin)
      → Sound p.leases p.bindings
      → Always Sound (get_target env config workspace p)
  unfolding get_target
  get_target-Sound workspace p s =
      bind-Always Sound (get_ready_binding env config workspace.id)
        (λ found. elim found [
          | none ↦ throw (not_active workspace.id)
          | some b ↦
              pure
                (record { url = local_url b.local_port ""; authorization = "Bearer " <> b.token })
        ])
        p (get_ready_binding-Sound workspace.id p s) targeted
    where
      targeted :
          (found : Option WorkspaceBinding) (u : Plugin)
          → Sound u.leases u.bindings
          → let m : Action WorkspaceTarget = elim found [
            | none ↦ throw (not_active workspace.id)
            | some b ↦
                pure
                  (record { url = local_url b.local_port ""; authorization = "Bearer " <> b.token })
          ] in
            Always Sound (m u)
      targeted none u t = t
      targeted (some b) u t = t
