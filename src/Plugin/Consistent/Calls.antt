-- ===== src/Plugin/Consistent/Calls.antt =====
-- The calls of the adapter and the tools that make workspaces or use one (plugin/src/index.ts), and
-- the invariant.
use opencode_remote_ssh.Base.{
  String, ◌<>◌, ◌≡◌, refl, ◌≢◌, Option, none, some, lookup, show_nat, dash_spaces, ℕ, arith,
}
use text.Mathlib.TextEquality.{eq_iff}
use text.Mathlib.TextLemmas.{append-eq-nil_iff}
use opencode_remote_ssh.Types.{
  exclusive, Error, Result, ok, err, ResolvedHost, WorkspaceInfo, WorkspaceBinding,
}
use opencode_remote_ssh.Types.Messages.{error_message}
use opencode_remote_ssh.Config.{ResolvedPluginConfig}
use opencode_remote_ssh.Provider.{HostSelectionRequest}
use opencode_remote_ssh.State.{Bindings}
use opencode_remote_ssh.Effects.{Env}
use opencode_remote_ssh.Plugin.{Plugin, Action, pure, try_catch, ◌>>=◌, acquire_resolved}
use opencode_remote_ssh.Plugin.Rules.{Always, bind-Always, try_catch-Ends}
use opencode_remote_ssh.Plugin.Connect.{host_request, new_workspace_id, remove_binding}
use opencode_remote_ssh.Plugin.Adapter.{
  provider_request_for_workspace, from_result, resolve_provider, with_selection,
  configure_workspace, bind_selected, create_workspace,
}
use opencode_remote_ssh.Plugin.Tools.{
  Report, success, failure, Created, reported, provider_name, create_at, create_under,
  remote_workspace_create,
}
use opencode_remote_ssh.Plugin.Consistent.{Sound}
use opencode_remote_ssh.Plugin.Consistent.Keeping.{Keeping, remove_binding-Keeping}
use opencode_remote_ssh.Plugin.Consistent.Create.{
  StateIsWritable, acquire-Sound, acquire_bind-Sound, acquire_bind_report-Sound,
}

-- What `new_workspace_id` makes at a given time.
abbrev pub id_at : ℕ → String → String
id_at time name = "remote-" <> show_nat time <> "-" <> dash_spaces name

prefix_named : ◌≢◌ {A = String} "remote-" ""
prefix_named = ground (arith, eq_iff "remote-" "")

pub id_at_named : (time : ℕ) (name : String) → id_at time name ≢ ""
id_at_named time name e = prefix_named (append-eq-nil_iff.0 e).0

-- The id that a tool makes for a workspace is not in use when it is made.
abbrev pub IsNewId : Env → String → Plugin → Type 0
IsNewId env name p = lookup (id_at (env.clock p.trace) name) p.bindings ≡ none

-- An action that keeps the invariant keeps it under `try`, and as a value.
pub try-Sound :
    {A : Type 0} (m : Action A) (h : Error → Action A) (p : Plugin)
    → Always Sound (m p)
    → ((e : Error) (u : Plugin) → Sound u.leases u.bindings → Always Sound (h e u))
    → Always Sound (try_catch m h p)
try-Sound m h p s after =
    try_catch-Ends (λ _ q. Sound q.leases q.bindings) (λ q. Sound q.leases q.bindings)
      (λ q. Sound q.leases q.bindings) m h p s after

pub reported-Sound :
    {A : Type 0} (m : Action (Report A)) (p : Plugin)
    → Always Sound (m p)
    → Always Sound (reported m p)
reported-Sound m p s = try-Sound m (λ e. pure (failure (error_message e))) p s (λ _ u h. h)

pub outcome-Sound :
    {A : Type 0} (x : Result A × Plugin) → Always Sound x → Sound x.1.leases x.1.bindings
outcome-Sound (ok a, p) h = h
outcome-Sound (err e, p) h = h

pub ends-Sound :
    {A : Type 0} (w : String) (before : Bindings) (x : Result A × Plugin)
    → Keeping w before x
    → Always Sound x
ends-Sound w before (ok a, p) h = h.0
ends-Sound w before (err e, p) h = h.0

pub remove_binding-Sound :
    (env : Env) (b : WorkspaceBinding) (p : Plugin)
    → Sound p.leases p.bindings
    → Always Sound (remove_binding env b p)
remove_binding-Sound env b p s =
    ends-Sound b.workspace_id p.bindings (remove_binding env b p)
      (remove_binding-Keeping env b p.bindings p (s, λ v n. refl))

module _ (env : Env) (config : ResolvedPluginConfig)
    (mode : config.defaults.lease_mode ≡ exclusive) where
  -- `configure` leases a host for the workspace and stores nothing.
  pub configure_workspace-Sound :
      (workspace : WorkspaceInfo) (p : Plugin)
      → workspace.id ≢ ""
      → Sound p.leases p.bindings
      → Always Sound (configure_workspace env config workspace p)
  unfolding configure_workspace resolve_provider
  configure_workspace-Sound workspace p named s =
      bind-Always Sound (resolve_provider env config workspace)
        (λ selection. pure (with_selection env config workspace selection)) p
        (resolved-Sound (provider_request_for_workspace workspace)) (λ _ u h. h)
    where
      resolved-Sound :
          (r : Result HostSelectionRequest)
          → Always Sound
              ((from_result r >>= (λ request. acquire_resolved env config request workspace.id)) p)
      resolved-Sound (err e) = s
      resolved-Sound (ok request) = acquire-Sound env config mode workspace.id named request p s

  pub create_workspace-Sound :
      StateIsWritable env
      → (workspace : WorkspaceInfo) (p : Plugin) → workspace.id ≢ ""
      → lookup workspace.id p.bindings ≡ none
      → Sound p.leases p.bindings
      → Always Sound (create_workspace env config workspace p)
  unfolding create_workspace resolve_provider
  create_workspace-Sound saves workspace p named fresh s =
      created-Sound (provider_request_for_workspace workspace)
    where
      created-Sound :
          (r : Result HostSelectionRequest)
          → Always Sound (
              (from_result r
                  >>= (λ request. acquire_resolved env config request workspace.id)
                  >>= (λ selection. bind_selected env config workspace.id selection))
                p)
      created-Sound (err e) = s
      created-Sound (ok request) =
          acquire_bind-Sound env config saves workspace.id named mode request p s fresh

  create_at-Sound :
      StateIsWritable env
      → (name : String) (host : Option String) (provider : String) (p : Plugin) → IsNewId env name p
      → Sound p.leases p.bindings
      → Always Sound (create_at env config name host provider p)
  unfolding create_at new_workspace_id
  create_at-Sound saves name host provider p fresh s =
      let w = id_at (env.clock p.trace) name in
      let report : ResolvedHost → Report Created = λ selection.
        success (record {
          workspace_id = w;
          provider = selection.provider;
          host = selection.host.name;
        }) in
      acquire_bind_report-Sound env config saves w (id_at_named (env.clock p.trace) name) mode
        (host_request provider host) report p s fresh

  pub remote_workspace_create-Sound :
      StateIsWritable env
      → (name : String) (provider host : Option String) (p : Plugin) → IsNewId env name p
      → Sound p.leases p.bindings
      → Always Sound (remote_workspace_create env config name provider host p)
  unfolding remote_workspace_create create_under
  remote_workspace_create-Sound saves name provider host p fresh s =
      reported-Sound (create_under env config name host (provider_name config provider)) p
        (go (provider_name config provider))
    where
      go : (found : Option String) → Always Sound (create_under env config name host found p)
      go none = s
      go (some found) = create_at-Sound saves name host found p fresh s
