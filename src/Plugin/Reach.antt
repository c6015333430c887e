-- ===== src/Plugin/Reach.antt =====
-- Every call that OpenCode and the user can make of the plugin (plugin/src/index.ts), in any order,
-- one after the other, under an exclusive lease mode.
use opencode_remote_ssh.Base.{String, ◌<>◌, ◌≡◌, ◌≢◌, false, Option, none, some, lookup, or_default}
use opencode_remote_ssh.Types.{exclusive, WorkspaceInfo, WorkspaceBinding}
use opencode_remote_ssh.Config.{ResolvedPluginConfig}
use opencode_remote_ssh.Leases.Holding.{holder}
use opencode_remote_ssh.Effects.{Env}
use opencode_remote_ssh.Plugin.{Plugin}
use opencode_remote_ssh.Plugin.Connect.{is_removed}
use opencode_remote_ssh.Plugin.Adapter.{
  configure_workspace, create_workspace, remove_workspace, get_target,
}
use opencode_remote_ssh.Plugin.Tools.{
  provider_name, label_for, remote_workspace_create, remote_switch, remote_status,
  remote_disconnect, remote_doctor, remote_workspace_list, remote_workspace_remove,
}
use opencode_remote_ssh.Plugin.Consistent.{Sound, Consistent-exclusive}
use opencode_remote_ssh.Plugin.Consistent.Loops.{
  remote_status-Sound, remote_disconnect-Sound, remote_workspace_list-Sound,
  remote_workspace_remove-Sound,
}
use opencode_remote_ssh.Plugin.Consistent.Create.{StateIsWritable}
use opencode_remote_ssh.Plugin.Consistent.Calls.{
  IsNewId, outcome-Sound, configure_workspace-Sound, create_workspace-Sound,
  remote_workspace_create-Sound,
}
use opencode_remote_ssh.Plugin.Consistent.Switch.{
  MakesNewId, remote_switch-Sound, remote_doctor-Sound,
}
use opencode_remote_ssh.Plugin.Consistent.Targets.{remove_workspace-Sound, get_target-Sound}

-- The four calls of `sshProviderAdaptor`, and the seven tools with their arguments.
pub data Call : Type 0 where
  configure create remove target : WorkspaceInfo → Call
  tool_create : String → Option String → Option String → Call
  tool_switch tool_doctor : Option String → Option String → Call
  tool_status tool_list : Call
  tool_disconnect : Option String → Call
  tool_remove : String → Call

module _ (env : Env) (config : ResolvedPluginConfig) where
  -- The state after a call, also after one that throws.
  unfoldable pub exec : Call → Plugin → Plugin
  exec (configure workspace) p = (configure_workspace env config workspace p).1
  exec (create workspace) p = (create_workspace env config workspace p).1
  exec (remove workspace) p = (remove_workspace env config workspace p).1
  exec (target workspace) p = (get_target env config workspace p).1
  exec (tool_create name provider host) p =
      (remote_workspace_create env config name provider host p).1
  exec (tool_switch host provider) p = (remote_switch env config host provider p).1
  exec (tool_doctor host provider) p = (remote_doctor env config host provider p).1
  exec tool_status p = (remote_status env config p).1
  exec tool_list p = (remote_workspace_list env config p).1
  exec (tool_disconnect workspace_id) p = (remote_disconnect env workspace_id p).1
  exec (tool_remove workspace_id) p = (remote_workspace_remove env workspace_id p).1

  abbrev provider_for : Option String → String
  provider_for provider = or_default (provider_name config provider) "default"

  -- Only a call that makes a workspace is restricted: its id must not be in use, whether OpenCode
  -- gives it or the plugin makes it from the time and a name.
  abbrev pub IsFresh : Call → Plugin → Type 0
  IsFresh (configure workspace) p = workspace.id ≢ ""
  IsFresh (create workspace) p = (workspace.id ≢ "") × (lookup workspace.id p.bindings ≡ none)
  IsFresh (tool_create name provider host) p = IsNewId env name p
  IsFresh (tool_switch host provider) p =
      let name = provider_for provider in
      MakesNewId env config name host (label_for env config host name) p
  IsFresh (tool_doctor host provider) p =
      let name = provider_for provider in
      MakesNewId env config name host ("doctor-" <> label_for env config host name) p
  IsFresh _ p = Unit {0}

  pub data Reach (start : Plugin) : Plugin → Type 0 where
    here : Reach start start
    after : {p : Plugin} → Reach start p → (c : Call) → IsFresh c p → Reach start (exec c p)

  module _ (mode : config.defaults.lease_mode ≡ exclusive) (saves : StateIsWritable env) where
    exec-Sound :
        (c : Call) (p : Plugin)
        → IsFresh c p
        → Sound p.leases p.bindings
        → Sound (exec c p).leases (exec c p).bindings
    unfolding exec
    exec-Sound (configure w) p fresh s =
        outcome-Sound (configure_workspace env config w p)
          (configure_workspace-Sound env config mode w p fresh s)
    exec-Sound (create w) p fresh s =
        outcome-Sound (create_workspace env config w p)
          (create_workspace-Sound env config mode saves w p fresh.0 fresh.1 s)
    exec-Sound (remove w) p fresh s =
        outcome-Sound (remove_workspace env config w p) (remove_workspace-Sound env config w p s)
    exec-Sound (target w) p fresh s =
        outcome-Sound (get_target env config w p) (get_target-Sound env config mode w p s)
    exec-Sound (tool_create name provider host) p fresh s =
        outcome-Sound (remote_workspace_create env config name provider host p)
          (remote_workspace_create-Sound env config mode saves name provider host p fresh s)
    exec-Sound (tool_switch host provider) p fresh s =
        outcome-Sound (remote_switch env config host provider p)
          (remote_switch-Sound env config mode saves host provider p fresh s)
    exec-Sound (tool_doctor host provider) p fresh s =
        outcome-Sound (remote_doctor env config host provider p)
          (remote_doctor-Sound env config mode saves host provider p fresh s)
    exec-Sound tool_status p fresh s =
        outcome-Sound (remote_status env config p) (remote_status-Sound env config mode p s)
    exec-Sound tool_list p fresh s =
        outcome-Sound (remote_workspace_list env config p)
          (remote_workspace_list-Sound env config mode p s)
    exec-Sound (tool_disconnect id) p fresh s =
        outcome-Sound (remote_disconnect env id p) (remote_disconnect-Sound env id p s)
    exec-Sound (tool_remove id) p fresh s =
        outcome-Sound (remote_workspace_remove env id p) (remote_workspace_remove-Sound env id p s)

    Reach-Sound :
        {start p : Plugin}
        → Sound start.leases start.bindings
        → Reach start p
        → Sound p.leases p.bindings
    Reach-Sound s here = s
    Reach-Sound s (after {p} r c fresh) = exec-Sound c p fresh (Reach-Sound s r)

    -- In exclusive mode, with a state file that can be written, and from a `Sound` state: after any
    -- calls of the adapter and the tools, successful or not, of which those that make a workspace
    -- make it under an id that is not in use, every binding is live and stored under its id, its
    -- workspace holds the lease of its host, and no two workspaces are bound to the same host.
    pub reachable-exclusive :
        {start p : Plugin}
        → Sound start.leases start.bindings
        → Reach start p
        → (w : String) (b : WorkspaceBinding) → lookup w p.bindings ≡ some b
        → (b.workspace_id ≡ w)
          × (is_removed b.status ≡ false)
          × (holder p.leases b.host ≡ some w)
          × ((v : String) (c : WorkspaceBinding)
              → lookup v p.bindings ≡ some c
              → c.host ≡ b.host
              → v ≡ w)
    reachable-exclusive {p = p} s r w b e =
        let t = Reach-Sound s r in
        let g = t.backed w b e in
        (
          g.own,
          g.live,
          g.held,
          λ v c f same. Consistent-exclusive p.leases p.bindings v w c b t.backed f e same,
        )
