-- ===== src/Tests/Network.antt =====
-- Waiting and tunnels (plugin/src/ssh.ts).
use opencode_remote_ssh.Base.{
  ◌%◌, ◌^◌, ◌+◌, ◌≡◌, ℕ, ◌≤◌, ◌≡◌, ◌⊎◌, true, some, none, [], ◌∷◌, arith, In,
}
use opencode_remote_ssh.Types.{not_healthy, no_local_port, ok, err}
use opencode_remote_ssh.Effects.{Trace, fetched, is_success, IsSteady}
use opencode_remote_ssh.Ssh.Args.{allocate_initial_local_port}
use opencode_remote_ssh.Ssh.Tunnel.Ports.Hash.{to_base_31, allocate_initial_local_port-base_31}
use opencode_remote_ssh.Ssh.Probe.{health_request, wait_for_health}
use opencode_remote_ssh.Ssh.Probe.Answered.{IsUpFrom, IsPrompt, wait_for_health-answered}
use opencode_remote_ssh.Tests.Recovery.{waking}
use opencode_remote_ssh.Ssh.Probe.Waiting.{passes, wait_for_health-settles}
use opencode_remote_ssh.Ssh.Tunnel.{Tunnel, ensure_tunnel}
use opencode_remote_ssh.Ssh.Tunnel.Ports.{ensure_tunnel-outcome}
use opencode_remote_ssh.Tests.Sample.{web, config, calm, dead}

dead-IsSteady : IsSteady dead
dead-IsSteady = record { forward = λ t e. omega arith; sleeps = λ t ms h. omega arith }

wait_for_health-settles_example :
    let request = health_request 39500 (some "secret") in
    let (r, after) = wait_for_health dead config 39500 "secret" [] in
    ((u : Trace) × (passes is_success (dead.fetch u request) ≡ true)
      × (r ≡ ok tt)
      × (after ≡ fetched request ∷ u))
    ⊎ ((r ≡ err (not_healthy 39500)) × (5000 ≤ dead.clock after))
wait_for_health-settles_example =
    wait_for_health-settles dead dead-IsSteady config 39500 "secret" []

ensure_tunnel-outcome_example :
    let (r, after) = ensure_tunnel calm config web.ssh none 39217 "w1" "web" [] in
    ((tunnel : Tunnel) × (p : ℕ) × (r ≡ ok tunnel)
      × (tunnel.tunnel_pid ≡ some p)
      × (39000 ≤ tunnel.local_port)
      × (tunnel.local_port ≤ 39999))
    ⊎ ((r ≡ err (no_local_port 39000 39999))
        × ((port : ℕ)
            → 39000 ≤ port
            → port ≤ 39999
            → In (fetched (health_request port none)) after))
ensure_tunnel-outcome_example =
    ensure_tunnel-outcome calm config web.ssh none 39217 (omega arith) "w1" "web" []

allocate_initial_local_port-base_31_example :
    allocate_initial_local_port config "w1" "web" ≡ 39000 + to_base_31 "w1:web" % 2 ^ 32 % 1000
allocate_initial_local_port-base_31_example = allocate_initial_local_port-base_31 config "w1" "web"

waking-IsSteady : IsSteady waking
waking-IsSteady = record { forward = λ t e. omega arith; sleeps = λ t ms h. omega arith }

waking-IsUpFrom : IsUpFrom waking waking-IsSteady 39500 "secret" 4 3
waking-IsUpFrom u late = ground arith

waking-IsPrompt : IsPrompt waking waking-IsSteady 39500 "secret" 4 3
waking-IsPrompt u = (omega arith, omega arith)

wait_for_health-answered_example : (wait_for_health waking config 39500 "secret" []).0 ≡ ok tt
wait_for_health-answered_example =
    wait_for_health-answered waking waking-IsSteady 39500 "secret" 4 3 config [] waking-IsUpFrom
      waking-IsPrompt (omega arith) (omega arith)
