-- ===== src/Ssh/Tunnel.antt =====
-- plugin/src/ssh.ts: starting and closing the SSH tunnel.
pub mod Ports
pub mod Kept
use opencode_remote_ssh.Base.{
  ℕ, zero, suc, ◌+◌, ◌-◌, ◌%◌, String, Bool, true, false, Option, none, some, if◌then◌else◌, eqb,
}
use opencode_remote_ssh.Types.{SshConfig, Error, no_local_port, tunnel_untracked, Result, ok, err}
use opencode_remote_ssh.Config.{ResolvedPluginConfig}
use opencode_remote_ssh.Effects.{Env, Io, spawn, kill, pure, throw, try_catch, observe, ◌>>=◌, ◌>>◌}
use opencode_remote_ssh.Ssh.Args.{
  build_tunnel_args, range_start, range_end, span, allocate_initial_local_port,
}
use opencode_remote_ssh.Ssh.Probe.{is_port_reachable, wait_for_port_reachable}

pub record Tunnel : Type 0 where
  pub local_port : ℕ
  pub tunnel_pid : Option ℕ

-- A missing pid and the pid 0 are falsy.
abbrev pub tracked : Option ℕ → Option ℕ
tracked none = none
tracked (some pid) = if eqb pid 0 then none else some pid

-- The port of an attempt: the range is walked round from the initial port.
abbrev pub port_at : ResolvedPluginConfig → ℕ → ℕ → ℕ
port_at config initial attempt =
    range_start config + (initial - range_start config + attempt) % span config

module _ (env : Env) where
  -- `if (child.pid) try { process.kill(child.pid, "SIGTERM") } catch {}`
  kill_quietly : Option ℕ → Io (Unit {0})
  kill_quietly pid = elim (tracked pid) [
    | none ↦ pure tt
    | some p ↦ try_catch (kill env p) (λ _. pure tt)
  ]

  -- The check that `closeTunnel` falls through to.
  check_closed : ℕ → Io (Unit {0})
  check_closed local_port = do
    reachable ← is_port_reachable env local_port
    if reachable then throw (tunnel_untracked local_port) else pure tt

  unfoldable pub close_tunnel : ℕ → Option ℕ → Io (Unit {0})
  unfolding check_closed
  close_tunnel local_port tunnel_pid = elim (tracked tunnel_pid) [
    | none ↦ check_closed local_port
    | some pid ↦ try_catch (kill env pid) (λ _. check_closed local_port)
  ]

module _ (env : Env) (config : ResolvedPluginConfig) (ssh : SshConfig) (identity : Option String)
    (remote_port : ℕ) where
  -- The child's pid, once the port answers; `none` if the port was taken or never answered.
  unfoldable pub try_start_tunnel : ℕ → Io (Option ℕ)
  unfolding kill_quietly
  try_start_tunnel local_port = do
    reachable ← is_port_reachable env local_port
    elim reachable [
      | true ↦ pure none
      | false ↦ do
        args ← observe (λ t. build_tunnel_args env config t ssh identity local_port remote_port)
        pid ← spawn env args
        try_catch (do wait_for_port_reachable env config local_port; pure pid)
            (λ _. do kill_quietly env pid; pure none)
    ]

  -- `for (let attempt = 0; attempt < span; attempt++)`, by the rounds that are left.
  unfoldable pub try_ports : ℕ → ℕ → ℕ → Io Tunnel
  try_ports initial zero attempt = throw (no_local_port (range_start config) (range_end config))
  try_ports initial (suc rounds) attempt =
      let others = try_ports initial rounds (attempt + 1) in
      do
        pid ← try_start_tunnel (port_at config initial attempt)
        elim (tracked pid) [
          | some p ↦
              pure (record { local_port = port_at config initial attempt; tunnel_pid = some p })
          | none ↦ others
        ]

  unfoldable pub ensure_tunnel : String → String → Io Tunnel
  ensure_tunnel workspace_id host =
      try_ports (allocate_initial_local_port config workspace_id host) (span config) 0

  unfoldable pub ensure_specific_or_fallback_tunnel : String → String → ℕ → Io Tunnel
  ensure_specific_or_fallback_tunnel workspace_id host preferred = do
    pid ← try_start_tunnel preferred
    elim (tracked pid) [
      | some p ↦ pure (record { local_port = preferred; tunnel_pid = some p })
      | none ↦ ensure_tunnel workspace_id host
    ]
