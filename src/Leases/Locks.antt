-- ===== src/Leases/Locks.antt =====
-- What `LeaseManager` (plugin/src/leases.ts) promises in exclusive mode: a table of locks, one for
-- each host, with no trace of times, modes or the order of entries.
use mathlib.Core.Path.{fun_ext}
use opencode_remote_ssh.Base.{
  String, ◌≡◌, refl, Option, none, some, List, [], ◌∷◌, lookup-insert, lookup-erase, if◌then◌else◌,
  ◌==◌, arith, ap, ◌∙◌,
}
use opencode_remote_ssh.Types.{exclusive, LeaseRecord, Error, leased_by, Result, ok, err}
use opencode_remote_ssh.Leases.{Leases, grant, acquire, release}
use opencode_remote_ssh.Leases.Holding.{holder}
use opencode_remote_ssh.Leases.History.{Call, acquires, releases, step, run}

abbrev pub Locks : Type 0
Locks = String → Option String

-- What a caller is told: that it has the host, or who has it; a release tells nothing.
pub data Reply : Type 0 where
  granted done : Reply
  refused : Error → Reply

abbrev set_lock : String → Option String → Locks → Locks
set_lock host w locks h = if h == host then w else locks h

-- A host is given to the first who asks, and taken back from whoever has it.
grab : Option String → String → String → Locks → Locks × Reply
grab none host w locks = (set_lock host (some w) locks, granted)
grab (some v) host w locks = (locks, refused (leased_by host v))

give_back : Option String → String → String → Locks → Locks
give_back none host w locks = locks
give_back (some v) host w locks = if v == w then set_lock host none locks else locks

pub lock_step : Locks → Call → Locks × Reply
unfolding grab give_back
lock_step locks (acquires host w now) = grab (locks host) host w locks
lock_step locks (releases host w) = (give_back (locks host) host w locks, done)

pub lock_run : Locks → List Call → Locks × List Reply
lock_run locks [] = (locks, [])
lock_run locks (c ∷ cs) =
    let (next, reply) = lock_step locks c in
    let (last, replies) = lock_run next cs in (last, reply ∷ replies)

-- What `acquire` tells its caller.
abbrev reply_of : Result LeaseRecord → Reply
reply_of (ok lease) = granted
reply_of (err e) = refused e

unfoldable pub reply : Leases → Call → Reply
reply leases (acquires host w now) = reply_of (acquire leases host w exclusive now).0
reply leases (releases host w) = done

unfoldable pub replies : Leases → List Call → List Reply
replies leases [] = []
replies leases (c ∷ cs) = reply leases c ∷ replies (step leases c) cs

step-locks :
    (leases : Leases) (c : Call) (h : String)
    → (lock_step (holder leases) c).0 h ≡ holder (step leases c) h
unfolding lock_step step acquire release
step-locks leases (acquires host w now) h =
    ground (arith, lookup-insert h host (grant host w exclusive now) leases)
step-locks leases (releases host w) h = ground (arith, lookup-erase h host leases)

step-reply : (leases : Leases) (c : Call) → (lock_step (holder leases) c).1 ≡ reply leases c
unfolding lock_step reply acquire
step-reply leases (acquires host w now) = ground arith
step-reply leases (releases host w) = refl

step-refines :
    (leases : Leases) (c : Call)
    → lock_step (holder leases) c ≡ (holder (step leases c), reply leases c)
step-refines leases c = λ i. (fun_ext (step-locks leases c) i, step-reply leases c i)

-- Refinement: for every history of exclusive acquisitions and of releases, the lease manager holds
-- what the table of locks holds, and every caller is told what the table tells.
pub run-refines :
    (leases : Leases) (calls : List Call)
    → lock_run (holder leases) calls ≡ (holder (run leases calls), replies leases calls)
unfolding lock_run run replies
run-refines leases [] = refl
run-refines leases (c ∷ cs) =
    ap (λ x. ((lock_run x.0 cs).0, x.1 ∷ (lock_run x.0 cs).1)) (step-refines leases c)
    ∙ ap (λ y. (y.0, reply leases c ∷ y.1)) (run-refines (step leases c) cs)
