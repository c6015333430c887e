-- ===== src/Plugin/Connect.antt =====
-- plugin/src/index.ts: making, reusing, recovering and removing bindings.
use opencode_remote_ssh.Base.{
  ℕ, String, ◌<>◌, Bool, true, false, ◌&&◌, ◌||◌, not, Option, none, some, List, [], ◌∷◌, truthy,
  if◌then◌else◌, ◌==◌, eqb, or_default, show_nat, dash_spaces,
}
use opencode_remote_ssh.Types.{
  ResolvedHost, Error, Status, creating, ready, failed, removed, WorkspaceBinding, ok,
}
use opencode_remote_ssh.Config.{ResolvedPluginConfig}
use opencode_remote_ssh.Leases
use opencode_remote_ssh.Leases.{Leases}
use opencode_remote_ssh.Provider.{HostSelectionRequest}
use opencode_remote_ssh.State
use opencode_remote_ssh.State.{Bindings}
use opencode_remote_ssh.Effects.{Env}
use opencode_remote_ssh.Ssh.Bootstrap.{BootstrapResult, bootstrap}
use opencode_remote_ssh.Ssh.Recover.{ensure_recovered_binding, close_recovered_binding}
use opencode_remote_ssh.Plugin.{
  Action, pure, throw, try_catch, lift, ◌>>=◌, ◌>>◌, list_bindings, get_binding, release, now,
  set_binding, replace_binding, delete_binding, acquire_resolved,
}
use opencode_remote_ssh.Plugin.Remote.{
  create_remote_session, create_remote_workspace, remove_remote_workspace,
}

abbrev pub is_removed : Status → Bool
is_removed removed = true
is_removed _ = false

-- A request for a host by name, without labels.
abbrev pub host_request : String → Option String → HostSelectionRequest
host_request provider host = record { provider = provider; host = host; labels = none }

-- The loop of `rehydrateLeasesFromState`.
unfoldable pub restore_all : List WorkspaceBinding → ℕ → Leases → Leases
restore_all [] time leases = leases
restore_all (b ∷ bs) time leases = restore_all bs time (
    if is_removed b.status
    then leases
    else (Leases.restore leases b.host b.workspace_id b.lease_mode none time).1)

module _ (env : Env) where
  unfoldable pub rehydrate_leases_from_state : Action (Unit {0})
  unfolding restore_all
  rehydrate_leases_from_state p =
      let leases =
        restore_all (State.list p.bindings) (env.clock p.trace) (Leases.clear p.leases) in
      (ok tt, record p { leases = leases })

  unfoldable pub remove_binding : WorkspaceBinding → Action (Unit {0})
  remove_binding b = do
    lift (remove_remote_workspace env b)
    lift (close_recovered_binding env b)
    release b.host b.workspace_id
    delete_binding env b.workspace_id

module _ (env : Env) (config : ResolvedPluginConfig) where
  -- The binding of a workspace whose bootstrap succeeded.
  abbrev pub new_binding : String → ResolvedHost → BootstrapResult → WorkspaceBinding
  new_binding workspace_id selection boot = record {
    workspace_id = workspace_id;
    provider = selection.provider;
    host = selection.host.name;
    remote_port = boot.remote_port;
    local_port = boot.local_port;
    token = boot.token;
    lease_mode = config.defaults.lease_mode;
    status = ready;
    tunnel_pid = boot.tunnel_pid;
    session_id = none;
  }

  -- `try { … } catch (error) { providers.release(…); throw error; }`
  abbrev pub or_release : {A : Type 0} → ResolvedHost → String → Action A → Action A
  or_release selection workspace_id m =
      try_catch m (λ e. do release selection.host.name workspace_id; throw e)

  -- `remote-${Date.now()}-${name with dashes for spaces}`
  unfoldable pub new_workspace_id : String → Action String
  new_workspace_id name = do
    time ← now env
    pure ("remote-" <> show_nat time <> "-" <> dash_spaces name)

  -- The body of the `try` in `createConnectedBinding`.
  unfoldable pub connect_selected : String → ResolvedHost → Action WorkspaceBinding
  connect_selected workspace_id selection = do
    boot ← lift (bootstrap env config workspace_id selection)
    let binding = new_binding workspace_id selection boot
    lift (create_remote_workspace env binding)
    session ← lift (create_remote_session env binding)
    let connected = record binding { session_id = some session }
    set_binding env connected
    pure connected

  unfoldable pub connect_as : String → String → Option String → Action WorkspaceBinding
  unfolding connect_selected
  connect_as workspace_id provider_name host = do
    selection ← acquire_resolved env config (host_request provider_name host) workspace_id
    or_release selection workspace_id (connect_selected workspace_id selection)

  unfoldable pub create_connected_binding :
      String → Option String → String → Action WorkspaceBinding
  unfolding connect_as
  create_connected_binding provider_name host workspace_name = do
    workspace_id ← new_workspace_id workspace_name
    connect_as workspace_id provider_name host

  -- `if (!recovered.sessionID) recovered.sessionID = await createRemoteSession(recovered)`
  unfoldable pub with_session : WorkspaceBinding → Action WorkspaceBinding
  with_session b = elim (truthy b.session_id) [
    | some _ ↦ pure b
    | none ↦ do
      session ← lift (create_remote_session env b)
      pure (record b { session_id = some session })
  ]

  -- The end of a round of `findReusableBinding` that has found its binding.
  unfoldable pub store_reused : WorkspaceBinding → Action (Option WorkspaceBinding)
  store_reused connected = do replace_binding env connected; pure (some connected)

  unfoldable pub resume : WorkspaceBinding → Action (Option WorkspaceBinding)
  resume recovered = do connected ← with_session recovered; store_reused connected

  -- The body of the `try` in `findReusableBinding`; `none` is `continue`.
  unfoldable pub reuse_selected : WorkspaceBinding → ResolvedHost → Action (Option WorkspaceBinding)
  reuse_selected b selection =
      if selection.host.name == b.host
      then (do recovered ← lift (ensure_recovered_binding env config b selection); resume recovered)
      else (do release selection.host.name b.workspace_id; pure none)

  -- One round of the loop in `findReusableBinding`.
  unfoldable pub reuse_entry :
      String → Option String → WorkspaceBinding → Action (Option WorkspaceBinding)
  reuse_entry provider_name host b = do
    selection ←
        acquire_resolved env config (host_request provider_name (some (or_default host b.host)))
          b.workspace_id
    reuse_selected b selection

  -- Its `catch`: the binding and its lease go.
  unfoldable pub drop_entry : WorkspaceBinding → Error → Action (Option WorkspaceBinding)
  drop_entry b e = do release b.host b.workspace_id; delete_binding env b.workspace_id; pure none

  unfoldable pub try_reuse :
      String → Option String → WorkspaceBinding → Action (Option WorkspaceBinding)
  unfolding reuse_entry drop_entry
  try_reuse provider_name host b =
      if is_removed b.status || not (b.provider == provider_name)
      then pure none
      else try_catch (reuse_entry provider_name host b) (drop_entry b)

  unfoldable pub reuse_first :
      String → Option String → List WorkspaceBinding → Action (Option WorkspaceBinding)
  reuse_first provider_name host [] = pure none
  reuse_first provider_name host (b ∷ bs) =
      let others = reuse_first provider_name host bs in
      do
        found ← try_reuse provider_name host b
        elim found [ some r ↦ pure (some r) | none ↦ others ]

  unfoldable pub find_reusable_binding : String → Option String → Action (Option WorkspaceBinding)
  unfolding reuse_first
  find_reusable_binding provider_name host = do
    bindings ← list_bindings
    reuse_first provider_name host bindings

  abbrev same_pid : Option ℕ → Option ℕ → Bool
  same_pid none none = true
  same_pid (some p) (some q) = eqb p q
  same_pid none (some q) = false
  same_pid (some p) none = false

  abbrev same_status : Status → Status → Bool
  same_status creating creating = true
  same_status ready ready = true
  same_status failed failed = true
  same_status removed removed = true
  same_status _ _ = false

  -- The three members that recovery may change.
  abbrev pub is_unchanged : WorkspaceBinding → WorkspaceBinding → Bool
  is_unchanged r b =
      eqb r.local_port b.local_port
      && same_pid r.tunnel_pid b.tunnel_pid
      && same_status r.status b.status

  -- The end of `ensureBindingReady`: what has changed is stored.
  unfoldable pub store_recovered : WorkspaceBinding → WorkspaceBinding → Action WorkspaceBinding
  store_recovered b recovered =
      if is_unchanged recovered b
      then pure b
      else (do replace_binding env recovered; pure recovered)

  unfoldable pub recover_selected : WorkspaceBinding → ResolvedHost → Action WorkspaceBinding
  recover_selected b selection = do
    recovered ← lift (ensure_recovered_binding env config b selection)
    store_recovered b recovered

  unfoldable pub ensure_binding_ready : WorkspaceBinding → Action WorkspaceBinding
  unfolding recover_selected store_recovered
  ensure_binding_ready b = do
    selection ← acquire_resolved env config (host_request b.provider (some b.host)) b.workspace_id
    recover_selected b selection

  unfoldable pub get_ready_binding : String → Action (Option WorkspaceBinding)
  get_ready_binding workspace_id = do
    found ← get_binding workspace_id
    elim found [ none ↦ pure none | some b ↦ do r ← ensure_binding_ready b; pure (some r) ]
