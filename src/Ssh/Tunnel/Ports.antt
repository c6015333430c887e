-- ===== src/Ssh/Tunnel/Ports.antt =====
-- The local ports that `ensureTunnel` of plugin/src/ssh.ts tries.
pub mod Hash
pub mod Arithmetic
use opencode_remote_ssh.Base.{
  ℕ, zero, suc, ◌+◌, ◌-◌, ◌%◌, ◌≤◌, ◌<◌, ◌≡◌, refl, ◌≢◌, ◌⊎◌, inl, inr, ◌∷◌, String, ◌<>◌, Bool,
  true, false, Option, none, some, In, arith, Option-cases, Bool-cases, ap, subst, sym,
}
use opencode_remote_ssh.Types.{SshConfig, Error, no_local_port, Result, ok, err}
use opencode_remote_ssh.Config.{ResolvedPluginConfig}
use opencode_remote_ssh.Effects.{
  Env, Io, Trace, Effect, fetched, spawned, killed, clock_read, slept, pure, try_catch, kill, ◌>>=◌,
  ◌>>◌,
}
use opencode_remote_ssh.Effects.Steps.{Result-cases}
use opencode_remote_ssh.Effects.Growth.{Keeps, bind-Keeps, try_catch-Keeps}
use opencode_remote_ssh.Ssh.Args.{
  range_start, range_end, span, allocate_initial_local_port, build_tunnel_args, hash_from,
}
use opencode_remote_ssh.Ssh.Probe.{
  health_request, is_port_reachable, wait_until, wait_within, wait_for_port_reachable,
}
use opencode_remote_ssh.Ssh.Probe.Waiting.{is_port_reachable_lem}
use opencode_remote_ssh.Ssh.Tunnel.{
  Tunnel, tracked, kill_quietly, port_at, try_start_tunnel, try_ports, ensure_tunnel,
}
use native.Mathlib.Decide.{ℕ_discrete}
use native.Mathlib.Nat.{mod-lt}
use Arithmetic.{port_at_bounds, port_at_covers}

module _ (env : Env) where
  pub wait_until-Keeps :
      (fuel deadline : ℕ) (test : Io Bool) (pause : ℕ) (failure : Error)
      → Keeps test
      → Keeps (wait_until env fuel deadline test pause failure)
  unfolding wait_until
  wait_until-Keeps zero deadline test pause failure k e t i = i
  wait_until-Keeps (suc fuel) deadline test pause failure k e t i =
      let t' : Trace = clock_read ∷ t in
      ground (
        arith,
        k e t' (inr i),
        wait_until-Keeps fuel deadline test pause failure k e (slept pause ∷ (test t').1),
      )

  is_port_reachable-Keeps : (port : ℕ) → Keeps (is_port_reachable env port)
  is_port_reachable-Keeps port e t i = rw is_port_reachable_lem (inr i)

  wait_for_port_reachable-Keeps :
      (config : ResolvedPluginConfig) (port : ℕ) → Keeps (wait_for_port_reachable env config port)
  unfolding wait_for_port_reachable wait_within
  wait_for_port_reachable-Keeps config port e t i =
      wait_until-Keeps _ _ _ _ _ (is_port_reachable-Keeps port) e (clock_read ∷ t) (inr i)

  kill_quietly_total : (pid : Option ℕ) (t : Trace) → (kill_quietly env pid t).0 ≡ ok tt
  unfolding kill_quietly
  kill_quietly_total pid t = ground arith

  kill_quietly-Keeps : (pid : Option ℕ) → Keeps (kill_quietly env pid)
  unfolding kill_quietly
  kill_quietly-Keeps pid e t i = ground arith

module _ (env : Env) (config : ResolvedPluginConfig) (ssh : SshConfig) (identity : Option String)
    (remote_port : ℕ) where
  abbrev attempt : ℕ → Trace → Result (Option ℕ) × Trace
  attempt port t = try_start_tunnel env config ssh identity remote_port port t

  try_start_tunnel-ne-err : (port : ℕ) (t : Trace) (e : Error) → (attempt port t).0 ≢ err e
  unfolding try_start_tunnel
  try_start_tunnel-ne-err port t e =
      let u : Trace = fetched (health_request port none) ∷ t in
      let args = build_tunnel_args env config u ssh identity port remote_port in
      let v : Trace = spawned args ∷ u in
      ground (
        arith,
        is_port_reachable_lem env port t,
        kill_quietly_total env (env.spawn u args) (wait_for_port_reachable env config port v).1,
      )

  pub try_start_tunnel-probed :
      (port : ℕ) (t : Trace) (e : Effect)
      → In e (fetched (health_request port none) ∷ t)
      → In e (attempt port t).1
  unfolding try_start_tunnel
  try_start_tunnel-probed port t e i =
      let u : Trace = fetched (health_request port none) ∷ t in
      let args = build_tunnel_args env config u ssh identity port remote_port in
      let v : Trace = spawned args ∷ u in
      ground (
        arith,
        is_port_reachable_lem env port t,
        wait_for_port_reachable-Keeps env config port e v (inr i),
        kill_quietly-Keeps env (env.spawn u args) e (wait_for_port_reachable env config port v).1,
      )

  next_step :
      (initial rounds k : ℕ) (t : Trace) (pid : Option ℕ)
      → (attempt (port_at config initial k) t).0 ≡ ok pid
      → tracked pid ≡ none
      → try_ports env config ssh identity remote_port initial (suc rounds) k t
        ≡ try_ports env config ssh identity remote_port initial rounds
            (k + 1)
            (attempt (port_at config initial k) t).1
  unfolding try_ports
  next_step initial rounds k t pid r lost = ground arith

  last_step :
      (initial rounds k : ℕ) (t : Trace) (pid : Option ℕ) (p : ℕ)
      → (attempt (port_at config initial k) t).0 ≡ ok pid
      → tracked pid ≡ some p
      → try_ports env config ssh identity remote_port initial (suc rounds) k t ≡ (
        ok (record { local_port = port_at config initial k; tunnel_pid = some p }),
        (attempt (port_at config initial k) t).1,
      )
  unfolding try_ports
  last_step initial rounds k t pid p r won = ground arith

  -- The outcome of the attempts from `k` on, `rounds` of them.
  abbrev Outcome : ℕ → ℕ → ℕ → Trace → Result Tunnel × Trace → Type 0
  Outcome initial rounds k t (r, after) =
      ((j p : ℕ) × (j < k + rounds)
        × (r ≡ ok (record { local_port = port_at config initial j; tunnel_pid = some p })))
      ⊎ ((r ≡ err (no_local_port (range_start config) (range_end config)))
          × ((j : ℕ)
              → k ≤ j
              → j < k + rounds
              → In (fetched (health_request (port_at config initial j) none)) after)
          × ((e : Effect) → In e t → In e after))

  try_ports-Outcome :
      (initial rounds k : ℕ) (t : Trace)
      → Outcome initial rounds k t
          (try_ports env config ssh identity remote_port initial rounds k t)
  unfolding try_ports
  try_ports-Outcome initial zero k t = inr (refl, λ j p q. absurd (omega arith), λ e i. i)
  try_ports-Outcome initial (suc rounds) k t =
      let port = port_at config initial k in
      let u : Trace = (attempt port t).1 in
      elim (Result-cases (attempt port t).0) [
        | inr (e, r) ↦ absurd (try_start_tunnel-ne-err port t e r)
        | inl (pid, r) ↦ elim (Option-cases (tracked pid)) [
          | inr (p, won) ↦
              subst (Outcome initial (suc rounds) k t)
                (sym (last_step initial rounds k t pid p r won)) (inl (k, p, omega arith, refl))
          | inl lost ↦
              subst (Outcome initial (suc rounds) k t)
                (sym (next_step initial rounds k t pid r lost))
                (elim (try_ports-Outcome initial rounds (k + 1) u) [
                  | inl (j, p, h, e) ↦ inl (j, p, omega arith, e)
                  | inr (failed, probed, kept) ↦ inr (
                    failed,
                    λ j lo hi. elim (ℕ_discrete k j) [
                      | yes here ↦
                          subst
                            (λ n.
                              In (fetched (health_request (port_at config initial n) none))
                                (try_ports env config ssh identity remote_port initial rounds
                                  (k + 1) u).1)
                            here (kept _ (try_start_tunnel-probed port t _ (inl refl)))
                      | no further ↦ probed j (omega arith) (omega arith)
                    ],
                    λ e i. kept e (try_start_tunnel-probed port t e (inr i)),
                  )
                ])
        ]
      ]

  module _ (ordered : range_start config ≤ range_end config) where
    -- Where the configured range is not empty, `ensureTunnel` returns a tunnel with a process that it tracks, on a port of the configured range,
    -- or it throws that no port is available, and then it has probed every port of the range.
    pub ensure_tunnel-outcome :
        (workspace_id host : String) (t : Trace)
        → let (r, after) = ensure_tunnel env config ssh identity remote_port workspace_id host t in
          ((tunnel : Tunnel) × (p : ℕ) × (r ≡ ok tunnel)
            × (tunnel.tunnel_pid ≡ some p)
            × (range_start config ≤ tunnel.local_port)
            × (tunnel.local_port ≤ range_end config))
          ⊎ ((r ≡ err (no_local_port (range_start config) (range_end config)))
              × ((port : ℕ)
                  → range_start config ≤ port
                  → port ≤ range_end config
                  → In (fetched (health_request port none)) after))
    unfolding ensure_tunnel
    ensure_tunnel-outcome workspace_id host t =
        let initial = allocate_initial_local_port config workspace_id host in
        elim (try_ports-Outcome initial (span config) 0 t) [
          | inl (j, p, h, r) ↦
              let (lo, hi) = port_at_bounds config ordered initial j in inl (_, p, r, refl, lo, hi)
          | inr (failed, probed, _) ↦ inr (
            failed,
            λ port lo hi.
                let (k, short, e) = port_at_covers config ordered workspace_id host port lo hi in
                subst
                  (λ n.
                    In (fetched (health_request n none))
                      (try_ports env config ssh identity remote_port initial (span config) 0 t).1)
                  e (probed k (omega arith) (omega arith)),
          )
        ]
