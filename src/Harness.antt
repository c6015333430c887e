-- ===== src/Harness.antt =====
-- scripts/verify-remote-lifecycle.mjs: a run of the real life cycle of a workspace, from the choice
-- of a host to the clean-up, with the classes of the plugin. Its state is that of the plugin, whose
-- bindings play no part. What it prints is its result; the warning about a clean-up that throws is
-- not kept.
pub mod CommandLine
pub mod Checks
pub mod Passing
pub mod CleanUp
pub mod Guarded
pub mod Answered
pub mod Served
pub mod Together
use opencode_remote_ssh.Base.{
  String, ◌<>◌, Option, none, some, List, truthy, or_default, if◌then◌else◌, show_nat, dash_spaces,
}
use opencode_remote_ssh.Types.{
  ResolvedHost, WorkspaceBinding, Result, ok, err, unknown_argument, no_stub, external,
}
use opencode_remote_ssh.Config.{ResolvedPluginConfig, PluginConfig, resolve_config}
use opencode_remote_ssh.Effects
use opencode_remote_ssh.Effects.{Env, Method}
use opencode_remote_ssh.Ssh.Bootstrap.{bootstrap}
use opencode_remote_ssh.Ssh.Recover.{teardown}
use opencode_remote_ssh.Plugin.{
  Action, pure, throw, try_catch, lift, now, ◌>>=◌, ◌>>◌, release, acquire_resolved,
}
use opencode_remote_ssh.Plugin.Connect.{host_request, new_binding}
use opencode_remote_ssh.Plugin.Adapter.{from_result}
use opencode_remote_ssh.Plugin.Tools.{provider_name, attempt}
use opencode_remote_ssh.Harness.CommandLine.{
  Args, Entry, Paths, Parsed, parsed, usage, refused, parse_args, plugin_config_from,
}
use opencode_remote_ssh.Harness.Checks.{Json, Target, Verified, request, checks}

-- The last line of a run that went well.
pub record Lifecycle : Type 0 where
  pub selection : ResolvedHost
  pub target : Target
  pub verified : Verified

-- How the program ends where nothing is thrown.
pub data Ended : Type 0 where
  shown_usage : Ended
  succeeded : Lifecycle → Ended

module _ (env : Env) (json : Json) where
  -- The clean-up in the `finally`: a step that throws ends it.
  unfoldable pub cleanup : Target → Action (Unit {0})
  cleanup target =
      let b = target.binding in
      do
        lift (
            Effects.fetch env
              (request target Method.delete ("/session/" <> target.session_id) none))
        lift (
            Effects.fetch env
              (request target Method.delete ("/experimental/workspace/" <> b.workspace_id) none))
        lift (teardown env b)
        release b.host b.workspace_id

  -- `try { checks } finally { try { cleanup } catch {} }`
  unfoldable pub checked : Target → Action Verified
  unfolding cleanup
  checked target = do
    outcome ← attempt (lift (checks env json target))
    try_catch (cleanup target) (λ _. pure tt)
    from_result outcome

  module _ (config : ResolvedPluginConfig) where
    -- `main` from the choice of the host on.
    unfoldable pub run_lifecycle : String → String → Action Lifecycle
    unfolding checked
    run_lifecycle provider host = do
      time ← now env
      let workspace_id = "harness-" <> show_nat time <> "-" <> dash_spaces host
      selection ← acquire_resolved env config (host_request provider (some host)) workspace_id
      boot ← lift (bootstrap env config workspace_id selection)
      let binding = new_binding env config workspace_id selection boot
      started ← now env
      let target : Target = record { binding = binding; session_id = "sess_" <> show_nat started }
      verified ← checked target
      pure (record { selection = selection; target = target; verified = verified })

    -- `main` with its configuration; the provider is
    -- `args.provider || Object.keys(config.providers)[0] || "default"`.
    unfoldable pub run_config : Args → Action Lifecycle
    unfolding provider_name run_lifecycle
    run_config args = do
      found ← lift (Effects.exists env config.stub_binary_path)
      if found
          then run_lifecycle (or_default (provider_name config args.provider) "default")
              (or_default args.host "")
          else throw (no_stub config.stub_binary_path)

  -- What `main` is given: the functions of paths, the default path of the stub, the default path of
  -- the configuration, and the plugin entries of the file at a path, if it can be read and parsed.
  module _ (paths : Paths) (stub_path default_config : String)
      (entries : String → Option (List Entry)) where
    unfoldable pub load_config : Option String → Action ResolvedPluginConfig
    unfolding plugin_config_from resolve_config
    load_config none = throw (external "call failed")
    load_config (some given) =
        let path = paths.resolved given in
        do
          options ← from_result (plugin_config_from paths path (entries path))
          pure (resolve_config paths.resolved stub_path (some options))

    unfoldable pub main : List String → Action Ended
    unfolding parse_args load_config run_config
    main argv = elim (parse_args default_config argv) [
      | usage ↦ pure shown_usage
      | refused argument ↦ throw (unknown_argument argument)
      | parsed args ↦ do
        config ← load_config args.config
        done ← run_config config args
        pure (succeeded done)
    ]
