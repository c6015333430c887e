-- ===== src/Plugin/Tools.antt =====
-- plugin/src/index.ts: the tools that the plugin registers. A result stands for the JSON text that
-- the tool returns.
use opencode_remote_ssh.Base.{
  String, ◌<>◌, Bool, true, false, Option, none, some, List, [], ◌∷◌, Table, filter, truthy,
  if◌then◌else◌, ◌==◌, or_default, any,
}
use opencode_remote_ssh.Types.{
  ready, WorkspaceBinding, no_providers, no_workspace_api, health_check_failed, external, Result,
  ok, err, ProviderConfig,
}
use opencode_remote_ssh.Types.Messages.{error_message}
use opencode_remote_ssh.Config.{ResolvedPluginConfig}
use opencode_remote_ssh.Effects.{Env, Response, fetch, is_success}
use opencode_remote_ssh.Ssh.Probe.{health_request}
use opencode_remote_ssh.Plugin.{
  Action, pure, throw, try_catch, lift, ◌>>=◌, ◌>>◌, list_bindings, get_binding, release,
  delete_binding, acquire_resolved,
}
use opencode_remote_ssh.Plugin.Connect.{
  host_request, new_workspace_id, find_reusable_binding, create_connected_binding,
  ensure_binding_ready, remove_binding, rehydrate_leases_from_state,
}
use opencode_remote_ssh.Plugin.Adapter.{bind_selected}

-- `{ success: true, … }` or `{ success: false, error }`
pub data Report (A : Type 0) : Type 0 where
  success : A → Report A
  failure : String → Report A

pub record Created : Type 0 where
  pub workspace_id : String
  pub provider : String
  pub host : String

pub record Diagnosis : Type 0 where
  pub binding : WorkspaceBinding
  pub reused : Bool
  pub health : String

-- An entry of `remote-status`: a binding, or what is left of one that could not be recovered.
pub data StatusEntry : Type 0 where
  live : WorkspaceBinding → StatusEntry
  lost : WorkspaceBinding → String → StatusEntry

pub record StatusReport : Type 0 where
  pub connected : Bool
  pub workspaces : List StatusEntry

abbrev pub is_connected : StatusEntry → Bool
is_connected (live b) = elim b.status [ ready ↦ true | _ ↦ false ]
is_connected (lost b error) = false

-- `Object.keys(config.providers)[0]`
abbrev first_provider : Table ProviderConfig → Option String
first_provider [] = none
first_provider ((name, _) ∷ _) = some name

-- `args.provider || Object.keys(config.providers)[0]`
unfoldable pub provider_name : ResolvedPluginConfig → Option String → Option String
provider_name config given = elim (truthy given) [
  | some name ↦ some name
  | none ↦ truthy (first_provider config.providers)
]

-- `try { … } catch (error) { return { success: false, error: errorMessage(error) } }`
abbrev pub reported : {A : Type 0} → Action (Report A) → Action (Report A)
reported m = try_catch m (λ e. pure (failure (error_message e)))

-- The outcome of a call as a value, for a `try` whose `catch` comes later.
abbrev pub attempt : {A : Type 0} → Action A → Action (Result A)
attempt m p = let (r, p') = m p in (ok r, p')

-- The array holds the ids removed so far.
unfoldable pub remove_all : Env → List WorkspaceBinding → Action (List String)
remove_all env [] = pure []
remove_all env (b ∷ bs) =
    let others = remove_all env bs in
    do remove_binding env b; rest ← others; pure (b.workspace_id ∷ rest)

-- The binding of one workspace, or all of them.
unfoldable pub chosen_bindings : Option String → List WorkspaceBinding → List WorkspaceBinding
chosen_bindings workspace_id bindings = elim (truthy workspace_id) [
  | none ↦ bindings
  | some id ↦ filter (λ b. b.workspace_id == id) bindings
]

module _ (env : Env) where
  unfoldable pub remote_disconnect : Option String → Action (Report (List String))
  unfolding remove_all
  remote_disconnect workspace_id = do
    bindings ← list_bindings
    elim (chosen_bindings workspace_id bindings) [
      | [] ↦ pure (failure "No active remote connection to disconnect.")
      | b ∷ bs ↦ do removed ← remove_all env (b ∷ bs); pure (success removed)
    ]

  unfoldable pub remote_workspace_remove : String → Action (Report String)
  remote_workspace_remove workspace_id = do
    found ← get_binding workspace_id
    elim found [
      | none ↦ pure (failure "Workspace not found")
      | some b ↦ do remove_binding env b; pure (success workspace_id)
    ]

module _ (env : Env) (config : ResolvedPluginConfig) where
  -- The part of `remote-workspace-create` after the choice of the provider.
  unfoldable pub create_at : String → Option String → String → Action (Report Created)
  create_at workspace_name host name = do
    workspace_id ← new_workspace_id env config workspace_name
    selection ← acquire_resolved env config (host_request name host) workspace_id
    bind_selected env config workspace_id selection
    pure (
        success (record {
          workspace_id = workspace_id;
          provider = selection.provider;
          host = selection.host.name;
        }))

  -- Its `try`.
  unfoldable pub create_under : String → Option String → Option String → Action (Report Created)
  unfolding create_at
  create_under workspace_name host none = throw no_providers
  create_under workspace_name host (some name) = create_at workspace_name host name

  unfoldable pub remote_workspace_create :
      String → Option String → Option String → Action (Report Created)
  unfolding provider_name create_under
  remote_workspace_create workspace_name provider host =
      reported (create_under workspace_name host (provider_name config provider))

  -- `args.host || providerName`
  abbrev pub label_for : Option String → String → String
  label_for host name = or_default (truthy host) name

  -- `findReusableBinding(…) ?? createConnectedBinding(…)`
  unfoldable pub reuse_or_create : String → Option String → Action WorkspaceBinding
  reuse_or_create name host = do
    found ← find_reusable_binding env config name host
    elim found [
      | some b ↦ pure b
      | none ↦ create_connected_binding env config name host (label_for host name)
    ]

  unfoldable pub remote_switch : Option String → Option String → Action (Report WorkspaceBinding)
  unfolding provider_name reuse_or_create
  remote_switch host provider = reported (do
    b ← reuse_or_create (or_default (provider_name config provider) "default") host
    pure (success b))

  -- One round of the loop of `remote-status`.
  unfoldable pub status_entry : WorkspaceBinding → Action StatusEntry
  status_entry b =
      try_catch (do r ← ensure_binding_ready env config b; pure (live r))
        (λ e. do
          delete_binding env b.workspace_id
          release b.host b.workspace_id
          pure (lost b (error_message e)))

  unfoldable pub status_entries : List WorkspaceBinding → Action (List StatusEntry)
  status_entries [] = pure []
  status_entries (b ∷ bs) =
      let others = status_entries bs in
      do entry ← status_entry b; rest ← others; pure (entry ∷ rest)

  unfoldable pub remote_status : Action StatusReport
  remote_status = do
    bindings ← list_bindings
    entries ← status_entries bindings
    pure (record { connected = any is_connected entries; workspaces = entries })

  unfoldable pub ready_all : List WorkspaceBinding → Action (List WorkspaceBinding)
  ready_all [] = pure []
  ready_all (b ∷ bs) =
      let others = ready_all bs in
      do r ← ensure_binding_ready env config b; rest ← others; pure (r ∷ rest)

  unfoldable pub remote_workspace_list : Action (List WorkspaceBinding)
  remote_workspace_list = do bindings ← list_bindings; ready_all bindings

  -- What `remote-doctor` makes of the answer to its health check.
  unfoldable pub judge : WorkspaceBinding → Bool → Response → Action (Report Diagnosis)
  judge b reused response =
      if is_success response
      then (elim response.json [
        | none ↦ throw (external "call failed")
        | some health ↦ pure (success (record { binding = b; reused = reused; health = health }))
      ])
      else throw (health_check_failed response.status response.text)

  -- The health check of `remote-doctor`, with its own `try`.
  unfoldable pub diagnose : WorkspaceBinding → Bool → Action (Report Diagnosis)
  diagnose b reused = reported (do
    response ← lift (fetch env (health_request b.local_port (some b.token)))
    judge b reused response)

  -- The `finally` of `remote-doctor`: the workspace made for the check goes; what that throws is
  -- passed over.
  unfoldable pub diagnose_new : WorkspaceBinding → Action (Report Diagnosis)
  unfolding diagnose
  diagnose_new b = do
    report ← diagnose b false
    try_catch (remove_binding env b) (λ _. pure tt)
    pure report

  unfoldable pub doctor_after :
      Result (Option WorkspaceBinding) → String → Option String → Action (Report Diagnosis)
  unfolding diagnose diagnose_new
  doctor_after (err e) name host = pure (failure (error_message e))
  doctor_after (ok (some b)) name host = diagnose b true
  doctor_after (ok none) name host = do
    created ←
        attempt (create_connected_binding env config name host ("doctor-" <> label_for host name))
    elim created [ err e ↦ pure (failure (error_message e)) | ok b ↦ diagnose_new b ]

  unfoldable pub remote_doctor : Option String → Option String → Action (Report Diagnosis)
  unfolding provider_name doctor_after
  remote_doctor host provider =
      let name = or_default (provider_name config provider) "default" in
      do found ← attempt (find_reusable_binding env config name host); doctor_after found name host

  -- `OpencodeRemotePlugin`, for a configuration that is resolved: without the workspace interface it
  -- throws; else the leases are taken from the bindings that were loaded.
  unfoldable pub start : Bool → Action (Unit {0})
  start has_workspaces =
      if has_workspaces then rehydrate_leases_from_state env else throw no_workspace_api
