-- ===== src/Ssh/Recover/Identity.antt =====
-- Recovering and closing bindings (plugin/src/ssh.ts).
use opencode_remote_ssh.Base.{◌≡◌, refl, ◌⊎◌, inl, true, none, some, ◌∷◌, arith, if◌then◌else◌}
use opencode_remote_ssh.Types.{ResolvedHost, WorkspaceBinding, ready, recovered_untracked, ok, err}
use opencode_remote_ssh.Config.{ResolvedPluginConfig}
use opencode_remote_ssh.Effects.{Env, Trace, fetched, is_success}
use opencode_remote_ssh.Ssh.Probe.{health_request, shows_stub}
use opencode_remote_ssh.Ssh.Probe.Waiting.{passes, is_health_reachable_lem, is_port_reachable_lem}
use opencode_remote_ssh.Ssh.Tunnel.{tracked}
use opencode_remote_ssh.Ssh.Recover.{
  close_recovered_binding, restart_tunnel, reconnect, ensure_recovered_binding,
}

-- The two differ in the tunnel alone: in its local port and its process, and in the status, which is
-- the old one or `ready`.
pub record IsRecovery (b r : WorkspaceBinding) : Type 0 where
  pub same :
      r ≡ record b { local_port = r.local_port; tunnel_pid = r.tunnel_pid; status = r.status }
  pub status : (r.status ≡ b.status) ⊎ (r.status ≡ ready)

module _ (env : Env) (config : ResolvedPluginConfig) (b : WorkspaceBinding)
    (target : ResolvedHost) where
  self-IsRecovery : IsRecovery b b
  self-IsRecovery = record { same = refl; status = inl refl }

  restart_tunnel-IsRecovery :
      (t : Trace) (r : WorkspaceBinding)
      → (restart_tunnel env config b target t).0 ≡ ok r
      → IsRecovery b r
  unfolding restart_tunnel
  restart_tunnel-IsRecovery t r e = ground arith

  -- A binding that is brought back is the old one but for its tunnel; in particular its workspace,
  -- host, token and session stay.
  pub ensure_recovered_binding-IsRecovery :
      (t : Trace) (r : WorkspaceBinding)
      → (ensure_recovered_binding env config b target t).0 ≡ ok r
      → IsRecovery b r
  unfolding ensure_recovered_binding reconnect
  ensure_recovered_binding-IsRecovery t r e =
      let u : Trace = fetched (health_request b.local_port (some b.token)) ∷ t in
      let v : Trace = fetched (health_request b.local_port (some b.token)) ∷ u in
      ground (
        arith,
        is_health_reachable_lem env b.local_port b.token t,
        is_health_reachable_lem env b.local_port b.token u,
        restart_tunnel-IsRecovery v r,
      )

  -- A binding whose stub answers is returned as it is, after one health check and nothing else.
  pub ensure_recovered_binding-healthy :
      (t : Trace)
      → let request = health_request b.local_port (some b.token) in
        passes is_success (env.fetch t request) ≡ true
        → ensure_recovered_binding env config b target t ≡ (ok b, fetched request ∷ t)
  unfolding ensure_recovered_binding
  ensure_recovered_binding-healthy t up =
      ground (arith, is_health_reachable_lem env b.local_port b.token t)

module _ (env : Env) (b : WorkspaceBinding) (untracked : tracked b.tunnel_pid ≡ none) where
  -- Without a tracked process nothing is killed: the local port is probed once, and the call throws
  -- if something answers there.
  pub close_recovered_binding-untracked :
      (t : Trace)
      → let request = health_request b.local_port none in
        close_recovered_binding env b t ≡ (
          if passes shows_stub (env.fetch t request)
          then (err (recovered_untracked b.local_port), fetched request ∷ t)
          else (ok tt, fetched request ∷ t))
  unfolding close_recovered_binding
  close_recovered_binding-untracked t = ground (arith, is_port_reachable_lem env b.local_port t)
