-- ===== src/Ssh/Probe/Waiting.antt =====
-- The waiting loops of plugin/src/ssh.ts: when they end, and how.
use opencode_remote_ssh.Base.{
  ℕ, zero, suc, ◌+◌, ◌≤◌, ◌<◌, ◌≡◌, String, Bool, true, false, Option, none, some, ◌∷◌, ltb, arith,
  Bool-cases, inl, inr, ap, ◌⊎◌, sym, subst,
}
use opencode_remote_ssh.Types.{Error, not_healthy, not_reachable, Result, ok, err}
use opencode_remote_ssh.Config.{ResolvedPluginConfig}
use opencode_remote_ssh.Effects.{
  Env, Io, Trace, fetched, slept, clock_read, Response, is_success, IsSteady,
}
use opencode_remote_ssh.Ssh.Probe.{
  health_request, shows_stub, is_port_reachable, is_health_reachable, wait_until, wait_within,
  wait_for_health, wait_for_port_reachable,
}

-- A check that never throws and takes the clock no further back.
pub record IsProbe (env : Env) (test : Io Bool) : Type 0 where
  pub total : (t : Trace) → (b : Bool) × ((test t).0 ≡ ok b)
  pub forward : (t : Trace) → env.clock t ≤ env.clock (test t).1

-- What a check makes of the answer: no answer counts as a failed check.
abbrev pub passes : (Response → Bool) → Option Response → Bool
passes test none = false
passes test (some r) = test r

module _ (env : Env) where
  -- A check sends one request and never throws.
  pub is_health_reachable_lem :
      (port : ℕ) (token : String) (t : Trace)
      → let request = health_request port (some token) in
        is_health_reachable env port token t
        ≡ (ok (passes is_success (env.fetch t request)), fetched request ∷ t)
  unfolding is_health_reachable
  is_health_reachable_lem port token t = ground arith

  pub is_port_reachable_lem :
      (port : ℕ) (t : Trace)
      → let request = health_request port none in
        is_port_reachable env port t
        ≡ (ok (passes shows_stub (env.fetch t request)), fetched request ∷ t)
  unfolding is_port_reachable
  is_port_reachable_lem port t = ground arith

module _ (env : Env) (steady : IsSteady env) where
  pub is_health_reachable-IsProbe :
      (port : ℕ) (token : String) → IsProbe env (is_health_reachable env port token)
  is_health_reachable-IsProbe port token = record {
    total = λ t. (_, ap (λ r. r.0) (is_health_reachable_lem env port token t));
    forward = λ t. rw is_health_reachable_lem (steady.forward t _);
  }

  pub is_port_reachable-IsProbe : (port : ℕ) → IsProbe env (is_port_reachable env port)
  is_port_reachable-IsProbe port = record {
    total = λ t. (_, ap (λ r. r.0) (is_port_reachable_lem env port t));
    forward = λ t. rw is_port_reachable_lem (steady.forward t _);
  }

  -- How a loop ends: well, right after a check that passed, or with its error, once the deadline is
  -- over.
  abbrev pub Settles : Io Bool → ℕ → Error → Result (Unit {0}) × Trace → Type 0
  Settles test deadline failure (r, after) =
      ((u : Trace) × ((test u).0 ≡ ok true)
        × ◌≡◌ {A = Result Unit} r (ok tt)
        × (after ≡ (test u).1))
      ⊎ ((r ≡ err failure) × (deadline ≤ env.clock after))

  module _ (test : Io Bool) (probe : IsProbe env test) (pause : ℕ) (pauses : 0 < pause)
      (failure : Error) where
    wait_until-Settles :
        (fuel deadline : ℕ) (t : Trace)
        → 0 < fuel
        → deadline < env.clock t + fuel
        → Settles test deadline failure (wait_until env fuel deadline test pause failure t)
    unfolding wait_until
    wait_until-Settles zero deadline t p h = absurd (omega arith)
    wait_until-Settles (suc fuel) deadline t p h =
        let t' : Trace = clock_read ∷ t in
        let next : Trace = slept pause ∷ (test t').1 in
        elim (Bool-cases (ltb (env.clock t) deadline)) [
          | inr over ↦ inr (ground arith, ground (arith, steady.forward t clock_read))
          | inl early ↦
              let (b, e) = probe.total t' in
              elim (Bool-cases b) [
                | inl passed ↦ inl (t', rw (← passed) e, ground arith, ground arith)
                | inr failed ↦
                    let same : wait_until env (suc fuel) deadline test pause failure t
                        ≡ wait_until env fuel deadline test pause failure next =
                      ground arith in
                    subst (Settles test deadline failure) (sym same) (
                      wait_until-Settles fuel deadline next (ground arith) (
                        ground (
                          arith,
                          steady.forward t clock_read,
                          probe.forward t',
                          steady.sleeps (test t').1 pause pauses,
                        )))
              ]
        ]

    pub wait_within-Settles :
        (timeout : ℕ) (t : Trace)
        → Settles test
            (env.clock t + timeout)
            failure
            (wait_within env timeout test pause failure t)
    unfolding wait_within
    wait_within-Settles timeout t =
        wait_until-Settles (timeout + 1) (env.clock t + timeout) (clock_read ∷ t) (omega arith)
          (omega (arith, steady.forward t clock_read))

  module _ (config : ResolvedPluginConfig) where
    -- On a steady clock `waitForHealth` ends. It returns right after a health check with the token
    -- that was answered with a success, or throws once the timeout is over.
    pub wait_for_health-settles :
        (port : ℕ) (token : String) (t : Trace)
        → let request = health_request port (some token) in
          let (r, after) = wait_for_health env config port token t in
          ((u : Trace) × (passes is_success (env.fetch u request) ≡ true)
            × (r ≡ ok tt)
            × (after ≡ fetched request ∷ u))
          ⊎ ((r ≡ err (not_healthy port))
              × (env.clock t + config.tunnel.health_timeout_ms ≤ env.clock after))
    unfolding wait_for_health
    wait_for_health-settles port token t =
        elim (wait_within-Settles (is_health_reachable env port token)
          (is_health_reachable-IsProbe port token) 300 (omega arith) (not_healthy port)
          config.tunnel.health_timeout_ms t) [
            | inr late ↦ inr late
            | inl (u, passed, r, after) ↦
                let run = is_health_reachable_lem env port token u in
                inl (u, ground (arith, run), r, ground (arith, run))
          ]

    -- On a steady clock `waitForPortReachable` ends. It returns right after a probe that showed the
    -- stub, or throws once the timeout is over.
    pub wait_for_port_reachable-settles :
        (port : ℕ) (t : Trace)
        → let request = health_request port none in
          let (r, after) = wait_for_port_reachable env config port t in
          ((u : Trace) × (passes shows_stub (env.fetch u request) ≡ true)
            × (r ≡ ok tt)
            × (after ≡ fetched request ∷ u))
          ⊎ ((r ≡ err (not_reachable port))
              × (env.clock t + config.tunnel.connect_timeout_ms ≤ env.clock after))
    unfolding wait_for_port_reachable
    wait_for_port_reachable-settles port t =
        elim (wait_within-Settles (is_port_reachable env port) (is_port_reachable-IsProbe port) 200
          (omega arith) (not_reachable port) config.tunnel.connect_timeout_ms t) [
            | inr late ↦ inr late
            | inl (u, passed, r, after) ↦
                let run = is_port_reachable_lem env port u in
                inl (u, ground (arith, run), r, ground (arith, run))
          ]
