-- ===== src/Ssh/Probe/Answered.antt =====
-- `waitForHealth` (plugin/src/ssh.ts) where the stub comes up in time.
use opencode_remote_ssh.Base.{
  ℕ, zero, suc, ◌+◌, ◌≤◌, ◌<◌, ◌≡◌, String, true, some, ◌∷◌, arith, Bool-cases, inl, inr, ap, ◌∙◌,
}
use opencode_remote_ssh.Types.{Error, not_healthy, ok}
use opencode_remote_ssh.Config.{ResolvedPluginConfig}
use opencode_remote_ssh.Effects.{Env, Trace, fetched, slept, clock_read, is_success, IsSteady}
use opencode_remote_ssh.Ssh.Probe.{
  health_request, is_health_reachable, wait_until, wait_within, wait_for_health,
}
use opencode_remote_ssh.Ssh.Probe.Waiting.{passes, is_health_reachable_lem}

module _ (env : Env) (steady : IsSteady env) (port : ℕ) (token : String) (ready gap : ℕ) where
  -- From time `ready` on, a health check with the token succeeds.
  abbrev pub IsUpFrom : Type 0
  IsUpFrom =
      (u : Trace)
      → ready ≤ env.clock u
      → passes is_success (env.fetch u (health_request port (some token))) ≡ true

  -- To read the clock, or a round of the loop, takes no longer than `gap`.
  abbrev pub IsPrompt : Type 0
  IsPrompt =
      (u : Trace)
      → (env.clock (clock_read ∷ u) ≤ env.clock u + gap)
        × (env.clock (slept 300 ∷ fetched (health_request port (some token)) ∷ clock_read ∷ u)
            ≤ env.clock u + gap)

  module _ (up : IsUpFrom) (prompt : IsPrompt) where
    wait_until-answered :
        (fuel deadline : ℕ) (failure : Error) (t : Trace)
        → deadline < env.clock t + fuel
        → env.clock t ≤ ready + gap
        → ready + gap < deadline
        → (wait_until env fuel deadline (is_health_reachable env port token) 300 failure t).0
          ≡ ok tt
    unfolding wait_until
    wait_until-answered zero deadline failure t enough soon room = absurd (omega arith)
    wait_until-answered (suc fuel) deadline failure t enough soon room =
        let request = health_request port (some token) in
        let t' : Trace = clock_read ∷ t in
        let next : Trace = slept 300 ∷ fetched request ∷ t' in
        let run = is_health_reachable_lem env port token t' in
        elim (Bool-cases (passes is_success (env.fetch t' request))) [
          | inl passed ↦ ground (arith, run)
          | inr failed ↦
              let late : env.clock t' < ready = ground (arith, up t') in
              let same : wait_until env (suc fuel) deadline (is_health_reachable env port token) 300
                    failure t
                  ≡ wait_until env fuel deadline (is_health_reachable env port token) 300 failure
                      next =
                ground (arith, run) in
              ap (λ r. r.0) same
              ∙ wait_until-answered fuel deadline failure next
                  (omega (
                    arith,
                    steady.forward t clock_read,
                    steady.forward t' (fetched request),
                    steady.sleeps (fetched request ∷ t') 300 (omega arith),
                  ))
                  (omega (arith, (prompt t).1, steady.forward t clock_read)) room
        ]

  -- If from time `ready` on, by which the wait begins, the stub answers every health check with the
  -- token, a round of the loop takes at most `gap`, and the timeout is over only after
  -- `ready + gap`, then `waitForHealth` returns, on a steady clock.
  pub wait_for_health-answered :
      (config : ResolvedPluginConfig) (t : Trace)
      → IsUpFrom
      → IsPrompt
      → env.clock t ≤ ready
      → ready + gap < env.clock t + config.tunnel.health_timeout_ms
      → (wait_for_health env config port token t).0 ≡ ok tt
  unfolding wait_for_health wait_within
  wait_for_health-answered config t up prompt before room =
      let timeout = config.tunnel.health_timeout_ms in
      wait_until-answered up prompt (timeout + 1) (env.clock t + timeout) (not_healthy port)
        (clock_read ∷ t) (omega (arith, steady.forward t clock_read)) (omega (arith, (prompt t).0))
        room
