-- ===== src/Tests/Leases.antt =====
-- Leases (plugin/src/leases.ts).
use text.Mathlib.TextEquality.{eq_iff}
use opencode_remote_ssh.Base.{
  ◌≡◌, refl, ◌≢◌, some, none, List, [], ◌∷◌, lookup, string_dec, arith, String, sym,
}
use opencode_remote_ssh.Types.{shared, leased_by}
use opencode_remote_ssh.Leases
use opencode_remote_ssh.Leases.{Leases, grant}
use opencode_remote_ssh.Leases.Holding.{holder, acquire-shared_evicts}
use opencode_remote_ssh.Leases.History.{Call, acquires, releases, run, run-excludes}
use opencode_remote_ssh.Leases.Locks.{refused, done, granted, lock_run, replies, run-refines}
use opencode_remote_ssh.Leases.Valid.{IsValid}
use opencode_remote_ssh.Tests.Sample.{web_lease, leases}
use opencode_remote_ssh.Leases.History
use opencode_remote_ssh.Leases.Locks

abbrev calls : List Call
calls = acquires "web" "w2" 5 ∷ releases "web" "w2" ∷ acquires "mail" "w2" 6 ∷ []

names_differ : ◌≢◌ {A = String} "w2" "w1"
names_differ = ground (arith, eq_iff "w2" "w1")

other_release : releases "web" "w2" ≢ releases "web" "w1"
other_release e = ground (arith, eq_iff "w2" "w1")

run-excludes_example : Leases.get (run leases calls) "web" ≡ some web_lease
unfolding Leases.get lookup string_dec
run-excludes_example =
    (run-excludes leases "web" web_lease calls refl (λ e. cc, (other_release, (λ e. cc, tt)))).0

acquire-shared_evicts_example :
    Leases.get (Leases.release (Leases.acquire leases "web" "w2" shared 9).1 "web" "w2") "web"
    ≡ none
unfolding Leases.get lookup string_dec
acquire-shared_evicts_example =
    (acquire-shared_evicts leases "web" "w2" 9 web_lease refl (λ e. names_differ (sym e))).2

leases_sample-IsValid : IsValid leases
unfolding lookup
leases_sample-IsValid = record { single = (refl, tt); named = (refl, tt) }

run-refines_example :
    lock_run (holder leases) calls ≡ (holder (run leases calls), replies leases calls)
run-refines_example = run-refines leases calls

-- The host that is held is refused, and the free one is given.
told : replies leases calls ≡ refused (leased_by "web" "w1") ∷ done ∷ granted ∷ []
unfolding replies Locks.reply Leases.acquire lookup string_dec History.step Leases.release
told = refl
