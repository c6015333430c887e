-- ===== src/Stub/Approvals.antt =====
-- How approvals are used up (stub/internal/state/state.go, `ConsumeApproval`).
use opencode_remote_ssh.Base.{
  List, ◌==◌, ℕ, ◌+◌, String, ◌≡◌, refl, true, false, Option, none, some, [], ◌∷◌, All, In, Table,
  length, insert, values, arith,
}
use opencode_remote_ssh.Stub.Patterns.{Bytes}
use opencode_remote_ssh.Stub.Store.{Approval, allows, consume_approvals}

-- No approval of the table allows the path.
abbrev pub NoneAllows : String → Bytes → Table Approval → Type 0
NoneAllows w path t = All (λ a. allows w path a ≡ false) (values t)

-- Every approval of the table is for once.
abbrev pub AllOnce : Table Approval → Type 0
AllOnce t = All (λ a. a.mode ≡ "once") (values t)

-- Approvals of other workspaces allow nothing.
pub others-NoneAllows :
    (w : String) (path : Bytes) (approvals : List Approval)
    → All (λ a. a.workspace_id == w ≡ false) approvals
    → All (λ a. allows w path a ≡ false) approvals
others-NoneAllows w path [] h = tt
others-NoneAllows w path (a ∷ approvals) (other, h) =
    let refused : allows w path a ≡ false = ground arith in
    (refused, others-NoneAllows w path approvals h)

-- What is found allows the path, and stood in the table.
pub consume_approvals-found :
    (w : String) (path : Bytes) (t : Table Approval) (a : Approval)
    → (consume_approvals w path t).0 ≡ some a
    → In a (values t) × (allows w path a ≡ true)
unfolding consume_approvals values
consume_approvals-found w path [] a e = absurd (cc)
consume_approvals-found w path ((id, b) ∷ t) a e =
    ground (arith, consume_approvals-found w path t a)

pub consume_approvals-none :
    (w : String) (path : Bytes) (t : Table Approval)
    → NoneAllows w path t
    → consume_approvals w path t ≡ (none, t)
unfolding consume_approvals values
consume_approvals-none w path [] h = refl
consume_approvals-none w path ((id, b) ∷ t) (out, h) =
    ground (arith, consume_approvals-none w path t h)

pub consume_approvals-refused :
    (w : String) (path : Bytes) (t : Table Approval)
    → (consume_approvals w path t).0 ≡ none
    → (NoneAllows w path t) × ((consume_approvals w path t).1 ≡ t)
unfolding consume_approvals values
consume_approvals-refused w path [] e = (tt, refl)
consume_approvals-refused w path ((id, b) ∷ t) e =
    ground (arith, consume_approvals-refused w path t)

-- One that is for once is used up.
abbrev pub used : Option Approval → ℕ
used none = 0
used (some a) = 1

pub consume_approvals-length :
    (w : String) (path : Bytes) (t : Table Approval)
    → AllOnce t
    → (length (consume_approvals w path t).1 + used (consume_approvals w path t).0 ≡ length t)
      × AllOnce (consume_approvals w path t).1
unfolding consume_approvals values
consume_approvals-length w path [] h = (refl, tt)
consume_approvals-length w path ((id, b) ∷ t) (once, h) =
    ground (arith, consume_approvals-length w path t h)

-- A new approval for once is the one that is found, and nothing is left then.
pub consume_approvals-new :
    (w : String) (path : Bytes) (a : Approval) (t : Table Approval)
    → NoneAllows w path t
    → allows w path a ≡ true
    → a.mode ≡ "once"
    → ((consume_approvals w path (insert a.id a t)).0 ≡ some a)
      × NoneAllows w path (consume_approvals w path (insert a.id a t)).1
unfolding consume_approvals values insert
consume_approvals-new w path a [] h yes_a once = ground arith
consume_approvals-new w path a ((id, b) ∷ t) (out, h) yes_a once =
    ground (arith, consume_approvals-new w path a t h yes_a once)
