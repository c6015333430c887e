-- ===== src/Ssh/Tunnel/Kept.antt =====
-- The trace of `ensureTunnel` and `waitForHealth` (plugin/src/ssh.ts).
use opencode_remote_ssh.Base.{ℕ, zero, suc, ◌+◌, String, Option, inr, none, some, ◌∷◌}
use opencode_remote_ssh.Types.{SshConfig}
use opencode_remote_ssh.Config.{ResolvedPluginConfig}
use opencode_remote_ssh.Effects.{Env, Io, clock_read, pure}
use opencode_remote_ssh.Effects.Growth.{Keeps, bind-Keeps}
use opencode_remote_ssh.Ssh.Probe.{is_health_reachable, wait_for_health, wait_within}
use opencode_remote_ssh.Ssh.Probe.Waiting.{is_health_reachable_lem}
use opencode_remote_ssh.Ssh.Tunnel.{
  Tunnel, tracked, port_at, try_start_tunnel, try_ports, ensure_tunnel,
}
use opencode_remote_ssh.Ssh.Tunnel.Ports.{wait_until-Keeps, try_start_tunnel-probed}

-- What a round of the loop does with the outcome of its attempt.
abbrev found_or : ℕ → Io Tunnel → Option ℕ → Io Tunnel
found_or port others pid = elim pid [
  | some p ↦ pure (record { local_port = port; tunnel_pid = some p })
  | none ↦ others
]

found-Keeps :
    (port : ℕ) (others : Io Tunnel) (pid : Option ℕ)
    → Keeps others
    → Keeps (found_or port others pid)
found-Keeps port others (some p) k = λ e t i. i
found-Keeps port others none k = k

module _ (env : Env) (config : ResolvedPluginConfig) where
  is_health_reachable-Keeps :
      (port : ℕ) (token : String) → Keeps (is_health_reachable env port token)
  is_health_reachable-Keeps port token e t i = rw is_health_reachable_lem (inr i)

  pub wait_for_health-Keeps :
      (port : ℕ) (token : String) → Keeps (wait_for_health env config port token)
  unfolding wait_for_health wait_within
  wait_for_health-Keeps port token e t i =
      wait_until-Keeps env _ _ _ _ _ (is_health_reachable-Keeps port token) e (clock_read ∷ t)
        (inr i)

  module _ (ssh : SshConfig) (identity : Option String) (remote_port : ℕ) where
    try_start_tunnel-Keeps :
        (port : ℕ) → Keeps (try_start_tunnel env config ssh identity remote_port port)
    try_start_tunnel-Keeps port e t i =
        try_start_tunnel-probed env config ssh identity remote_port port t e (inr i)

    try_ports-Keeps :
        (initial rounds k : ℕ)
        → Keeps (try_ports env config ssh identity remote_port initial rounds k)
    unfolding try_ports
    try_ports-Keeps initial zero k = λ e t i. i
    try_ports-Keeps initial (suc rounds) k =
        let port = port_at config initial k in
        let others = try_ports env config ssh identity remote_port initial rounds (k + 1) in
        bind-Keeps (try_start_tunnel env config ssh identity remote_port port)
          (λ pid. found_or port others (tracked pid)) (try_start_tunnel-Keeps port)
          (λ pid. found-Keeps port others (tracked pid) (try_ports-Keeps initial rounds (k + 1)))

    pub ensure_tunnel-Keeps :
        (workspace_id host : String)
        → Keeps (ensure_tunnel env config ssh identity remote_port workspace_id host)
    unfolding ensure_tunnel
    ensure_tunnel-Keeps workspace_id host = try_ports-Keeps _ _ _
