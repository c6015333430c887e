-- ===== src/Ssh/Probe.antt =====
-- Health checks, and the three loops that wait until a deadline. A round that does not return sleeps,
-- so a loop's fuel, its timeout in milliseconds plus one, is enough where the clock is steady.
pub mod Waiting
pub mod Answered
use opencode_remote_ssh.Base.{
  ℕ, zero, suc, ◌+◌, ◌-◌, String, ◌<>◌, Bool, true, false, not, ◌||◌, Option, none, some,
  if◌then◌else◌, eqb, ltb, show_nat,
}
use opencode_remote_ssh.Types.{
  Error, not_healthy, not_reachable, not_closed, out_of_fuel, Result, ok, err,
}
use opencode_remote_ssh.Config.{ResolvedPluginConfig}
use opencode_remote_ssh.Effects.{
  Env, Io, Method, Request, Response, is_success, fetch, read_clock, sleep, pure, throw, try_catch,
  ◌>>=◌, ◌>>◌,
}

-- `http://127.0.0.1:${localPort}`
abbrev pub local_url : ℕ → String → String
local_url port path = "http://127.0.0.1:" <> show_nat port <> path

abbrev pub health_request : ℕ → Option String → Request
health_request port token = record {
  method = Method.get;
  url = local_url port "/global/health";
  token = token;
  payload = none;
}

-- `response.ok || response.status === 401 || response.status === 403`
abbrev pub shows_stub : Response → Bool
shows_stub r = is_success r || eqb r.status 401 || eqb r.status 403

module _ (env : Env) where
  unfoldable pub is_port_reachable : ℕ → Io Bool
  is_port_reachable port =
      try_catch (do response ← fetch env (health_request port none); pure (shows_stub response))
        (λ _. pure false)

  unfoldable pub is_health_reachable : ℕ → String → Io Bool
  is_health_reachable port token =
      try_catch
        (do response ← fetch env (health_request port (some token)); pure (is_success response))
        (λ _. pure false)

  -- `while (Date.now() < deadline) { if (await test) return; await this.sleep(pause); } throw …`
  unfoldable pub wait_until : ℕ → ℕ → Io Bool → ℕ → Error → Io (Unit {0})
  wait_until zero deadline test pause failure = throw out_of_fuel
  wait_until (suc fuel) deadline test pause failure =
      let again = wait_until fuel deadline test pause failure in
      do
        now ← read_clock env
        elim (ltb now deadline) [
          | false ↦ throw failure
          | true ↦ do
            passed ← test
            elim passed [ true ↦ pure tt | false ↦ sleep env pause >> again ]
        ]

  -- The loop with its deadline, `Date.now() + timeout`.
  unfoldable pub wait_within : ℕ → Io Bool → ℕ → Error → Io (Unit {0})
  wait_within timeout test pause failure = do
    now ← read_clock env
    wait_until (timeout + 1) (now + timeout) test pause failure

  module _ (config : ResolvedPluginConfig) where
    -- The request of `waitForHealth` is that of `isHealthReachable` without its own time limit.
    unfoldable pub wait_for_health : ℕ → String → Io (Unit {0})
    wait_for_health port token =
        wait_within config.tunnel.health_timeout_ms (is_health_reachable port token) 300
          (not_healthy port)

    unfoldable pub wait_for_port_reachable : ℕ → Io (Unit {0})
    wait_for_port_reachable port =
        wait_within config.tunnel.connect_timeout_ms (is_port_reachable port) 200
          (not_reachable port)

  unfoldable pub wait_for_port_closed : ℕ → Io (Unit {0})
  wait_for_port_closed port =
      wait_within 5000 (do reachable ← is_port_reachable port; pure (not reachable)) 200
        (not_closed port)
