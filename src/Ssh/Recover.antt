-- ===== src/Ssh/Recover.antt =====
-- plugin/src/ssh.ts: bringing a binding back to life (`reconnect`), and taking it down.
pub mod Identity
pub mod Answering
use opencode_remote_ssh.Base.{ℕ, String, Bool, true, false, Option, none, some, if◌then◌else◌}
use opencode_remote_ssh.Types.{
  ResolvedHost, WorkspaceBinding, ready, Error, recovered_untracked, Result, ok, err,
}
use opencode_remote_ssh.Config.{ResolvedPluginConfig}
use opencode_remote_ssh.Effects.{Env, Io, pure, throw, ◌>>=◌, ◌>>◌}
use opencode_remote_ssh.Ssh.Args.{identity_file}
use opencode_remote_ssh.Ssh.Probe.{
  is_port_reachable, is_health_reachable, wait_for_health, wait_for_port_closed,
}
use opencode_remote_ssh.Ssh.Tunnel.{
  Tunnel, tracked, close_tunnel, ensure_specific_or_fallback_tunnel,
}

module _ (env : Env) where
  unfoldable pub teardown : WorkspaceBinding → Io (Unit {0})
  teardown b = do close_tunnel env b.local_port b.tunnel_pid; wait_for_port_closed env b.local_port

  unfoldable pub close_recovered_binding : WorkspaceBinding → Io (Unit {0})
  close_recovered_binding b = elim (tracked b.tunnel_pid) [
    | some pid ↦ teardown b
    | none ↦ do
      reachable ← is_port_reachable env b.local_port
      if reachable then throw (recovered_untracked b.local_port) else pure tt
  ]

  unfoldable pub validate_recovered_binding : WorkspaceBinding → Io Bool
  unfolding is_health_reachable
  validate_recovered_binding b = is_health_reachable env b.local_port b.token

  -- Other names of this check.
  abbrev is_binding_ready : WorkspaceBinding → Io Bool
  is_binding_ready b = is_health_reachable env b.local_port b.token

  abbrev can_reach_binding : WorkspaceBinding → Io Bool
  can_reach_binding b = is_health_reachable env b.local_port b.token

  abbrev probe_binding : WorkspaceBinding → Io Bool
  probe_binding b = is_health_reachable env b.local_port b.token

module _ (env : Env) (config : ResolvedPluginConfig) where
  -- The part of `reconnect` after its own health check.
  restart_tunnel : WorkspaceBinding → ResolvedHost → Io WorkspaceBinding
  restart_tunnel b target = do
    tunnel ←
        ensure_specific_or_fallback_tunnel env config target.host.ssh
          (identity_file env config target.host.ssh) b.remote_port b.workspace_id target.host.name
          b.local_port
    wait_for_health env config tunnel.local_port b.token
    pure (record b {
      local_port = tunnel.local_port;
      tunnel_pid = tunnel.tunnel_pid;
      status = ready;
    })

  unfoldable pub reconnect : WorkspaceBinding → ResolvedHost → Io WorkspaceBinding
  unfolding restart_tunnel
  reconnect b target = do
    healthy ← is_health_reachable env b.local_port b.token
    elim healthy [ true ↦ pure b | false ↦ restart_tunnel b target ]

  unfoldable pub ensure_recovered_binding : WorkspaceBinding → ResolvedHost → Io WorkspaceBinding
  ensure_recovered_binding b target = do
    healthy ← is_health_reachable env b.local_port b.token
    elim healthy [ true ↦ pure b | false ↦ reconnect b target ]

  -- Other names of this method.
  abbrev reconnect_binding : WorkspaceBinding → ResolvedHost → Io WorkspaceBinding
  reconnect_binding b target = ensure_recovered_binding b target

  abbrev ensure_ready : WorkspaceBinding → ResolvedHost → Io WorkspaceBinding
  ensure_ready b target = ensure_recovered_binding b target

  abbrev ensure_active : WorkspaceBinding → ResolvedHost → Io WorkspaceBinding
  ensure_active b target = ensure_recovered_binding b target

  abbrev reconnect_after_restart : WorkspaceBinding → ResolvedHost → Io WorkspaceBinding
  reconnect_after_restart b target = ensure_recovered_binding b target

  abbrev ensure_after_restart : WorkspaceBinding → ResolvedHost → Io WorkspaceBinding
  ensure_after_restart b target = ensure_recovered_binding b target

  abbrev ensure_target_ready : WorkspaceBinding → ResolvedHost → Io WorkspaceBinding
  ensure_target_ready b target = ensure_recovered_binding b target

  abbrev reconnect_target_binding : WorkspaceBinding → ResolvedHost → Io WorkspaceBinding
  reconnect_target_binding b target = ensure_recovered_binding b target
