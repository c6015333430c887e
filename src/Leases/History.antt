-- ===== src/Leases/History.antt =====
-- Histories of calls of the lease manager, as the plugin makes them in exclusive mode.
use opencode_remote_ssh.Base.{
  ℕ, String, ◌≡◌, ◌≢◌, some, List, [], ◌∷◌, All, lookup-insert, lookup-erase, arith,
}
use opencode_remote_ssh.Types.{exclusive, LeaseRecord, leased_by, err}
use opencode_remote_ssh.Leases.{Leases, refuse_or_take, acquire, release, get}

-- `acquires host workspace now` and `releases host workspace`
pub data Call : Type 0 where
  acquires : String → String → ℕ → Call
  releases : String → String → Call

unfoldable pub step : Leases → Call → Leases
step leases (acquires host workspace_id now) = (acquire leases host workspace_id exclusive now).1
step leases (releases host workspace_id) = release leases host workspace_id

unfoldable pub run : Leases → List Call → Leases
run leases [] = leases
run leases (c ∷ cs) = run (step leases c) cs

step-keeps :
    (leases : Leases) (host : String) (l : LeaseRecord) (c : Call)
    → get leases host ≡ some l
    → c ≢ releases host l.workspace_id
    → get (step leases c) host ≡ some l
unfolding step get acquire release
step-keeps leases host l (acquires h w now) held other = ground (
  arith,
  lookup-insert host h (record { host = h; workspace_id = w; mode = exclusive; acquired_at = now })
      leases,
)
step-keeps leases host l (releases h w) held other = ground (arith, lookup-erase host h leases)

run-keeps :
    (leases : Leases) (host : String) (l : LeaseRecord) (calls : List Call)
    → get leases host ≡ some l
    → All (λ c. c ≢ releases host l.workspace_id) calls
    → get (run leases calls) host ≡ some l
unfolding run
run-keeps leases host l [] held quiet = held
run-keeps leases host l (c ∷ cs) held quiet =
    run-keeps (step leases c) host l cs (step-keeps leases host l c held quiet.0) quiet.1

-- Mutual exclusion. While a workspace that holds a host has not released it, whatever else is
-- acquired in exclusive mode and released, the host keeps that very lease, and every further
-- exclusive acquisition of it fails and names the holder.
pub run-excludes :
    (leases : Leases) (host : String) (l : LeaseRecord) (calls : List Call)
    → get leases host ≡ some l
    → All (λ c. c ≢ releases host l.workspace_id) calls
    → (get (run leases calls) host ≡ some l)
      × ((w : String) (now : ℕ)
          → acquire (run leases calls) host w exclusive now
            ≡ (err (leased_by host l.workspace_id), run leases calls))
unfolding get acquire
run-excludes leases host l calls held quiet =
    let kept = run-keeps leases host l calls held quiet in
    (kept, λ w now. rw (kept, refuse_or_take))
