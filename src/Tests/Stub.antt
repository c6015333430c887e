-- ===== src/Tests/Stub.antt =====
-- The stub: patterns, a command that needs permission, and the check of the token.
use opencode_remote_ssh.Base.{
  insert, show_nat, values, ℕ, ◌+◌, ◌≤◌, ◌≡◌, refl, ◌↔◌, String, true, false, Option, some, List,
  [], ◌∷◌, ◌++◌, lookup, Table, string_dec,
}
use opencode_remote_ssh.Stub.Patterns.{Bytes, subtree, match_pattern}
use opencode_remote_ssh.Stub.Patterns.Meaning.{Stands, match_pattern_iff, match_pattern-parent}
use opencode_remote_ssh.Stub.Store.{
  Workspace, Session, Approval, Stub, empty_stub, get_session, get_permission,
}
use opencode_remote_ssh.Stub.Handler.{Machine, ran, success, done, failure, shell}
use opencode_remote_ssh.Stub.Commands.{Executed, shell-Executed}
use opencode_remote_ssh.Stub.Once.{request_of, refused, replied, executed, again, executed-once}
use opencode_remote_ssh.Stub.Calls.{Call, reply_to, run_shell, history, total_runs, once_replies}
use opencode_remote_ssh.Stub.Bound.{history-total_runs}
use opencode_remote_ssh.Stub.Auth.{bearer, lower, require, passed}
use opencode_remote_ssh.Stub.Auth.Bearer.{require_iff}
use opencode_remote_ssh.Stub.Calls
use opencode_remote_ssh.Stub.Handler
use opencode_remote_ssh.Stub.Store

-- "/srv" and "/srv/app"
abbrev srv : Bytes
srv = b'/' ∷ b's' ∷ b'r' ∷ b'v' ∷ []

abbrev app : Bytes
app = srv ++ (b'/' ∷ b'a' ∷ b'p' ∷ b'p' ∷ [])

match_pattern_iff_example :
    (match_pattern (srv ++ subtree) app ≡ true) ↔ Stands (srv ++ subtree) app
match_pattern_iff_example = match_pattern_iff (srv ++ subtree) app

match_pattern-parent_example :
    match_pattern (srv ++ subtree) (srv ++ (b'/' ∷ b'.' ∷ b'.' ∷ b'/' ∷ b'e' ∷ b't' ∷ b'c' ∷ []))
    ≡ true
match_pattern-parent_example = match_pattern-parent srv (b'/' ∷ b'e' ∷ b't' ∷ b'c' ∷ [])

-- A neighbour of the directory is not inside it.
neighbour : match_pattern (srv ++ subtree) (srv ++ (b'2' ∷ [])) ≡ false
unfolding match_pattern
neighbour = refl

-- A machine whose clock stands at a number.
abbrev at : ℕ → Machine
at n = record {
  clock = λ k. n + k;
  home = b'/' ∷ [];
  writes = λ path. true;
  run = λ command cwd variables. ("/srv/app\n", 0);
}

abbrev work : Session
work = record {
  id = "sess_1";
  workspace_id = "w1";
  title = "work";
  directory = app;
  status = "idle";
  created_at = 1;
  updated_at = 1;
}

-- An approval for once of all below "/srv".
abbrev approval : Approval
approval = record {
  id = "apr_1";
  workspace_id = "w1";
  host = "default";
  permission = "path.access";
  pattern = srv ++ subtree;
  mode = "once";
  created_at = 1;
}

abbrev st : Stub
st = record empty_stub { sessions = ("sess_1", work) ∷ [] }

abbrev approved : Stub
approved = record st { approvals = ("apr_1", approval) ∷ [] }

abbrev body : Option (String × Bytes × Table String)
body = some ("pwd", [], [])

ran_once : (shell (at 5) "shell" "sess_1" body approved).0 ≡ success (ran "/srv/app\n" 0)
unfolding shell lookup string_dec Store.consume_approval match_pattern
ran_once = refl

shell-Executed_example : Executed (at 5) "sess_1" body approved ("/srv/app\n", 0)
shell-Executed_example =
    shell-Executed (at 5) "shell" "sess_1" body approved "/srv/app\n" 0 ran_once

known : get_session st "sess_1" ≡ some work
unfolding lookup string_dec
known = refl

executed-once_example :
    ((refused work "shell" "pwd" [] [] (at 1) (at 2) (at 3) (at 4) st).0
      ≡ failure 403 "permission_required")
    × (get_permission
          (refused work "shell" "pwd" [] [] (at 1) (at 2) (at 3) (at 4) st).1
          (request_of work "shell" "pwd" [] [] (at 1)).id
        ≡ some (request_of work "shell" "pwd" [] [] (at 1)))
    × ((replied work "shell" "pwd" [] [] (at 1) (at 2) (at 3) (at 4) st).0 ≡ success done)
    × ((executed work "shell" "pwd" [] [] (at 1) (at 2) (at 3) (at 4) st).0
        ≡ success (ran "/srv/app\n" 0))
    × ((again work "shell" "pwd" [] [] (at 1) (at 2) (at 3) (at 4) st).0
        ≡ failure 403 "permission_required")
unfolding values
executed-once_example =
    executed-once work "shell" "pwd" [] [] (at 1) (at 2) (at 3) (at 4) st known tt refl

abbrev calls : List (Machine × Call)
calls =
    (at 1, run_shell "sess_1" body)
    ∷ (at 2, run_shell "sess_1" body)
    ∷ (at 3, reply_to "perm_2" (some "once"))
    ∷ (at 4, run_shell "sess_1" body)
    ∷ []

history-total_runs_example : total_runs (history calls approved).0 ≤ 1 + once_replies calls
unfolding values string_dec
history-total_runs_example =
    history-total_runs calls approved (refl, tt) (refl, (refl, (refl, (refl, tt))))

-- The first command uses the approval up, the third the one of the reply.
ran_twice : total_runs (history calls approved).0 ≡ 2
unfolding history total_runs Calls.handle shell lookup string_dec Store.consume_approval
    match_pattern Handler.permission_reply insert show_nat
ran_twice = refl

abbrev key : Bytes
key = b'k' ∷ []

-- "Bearer k"
abbrev header : Bytes
header = (b'B' ∷ b'e' ∷ b'a' ∷ b'r' ∷ b'e' ∷ b'r' ∷ []) ++ (b' ' ∷ key)

require_iff_example : (require key header ≡ passed key) ↔ (
    (key ≡ key) × ((scheme : Bytes) × (header ≡ scheme ++ (b' ' ∷ key)) × (lower scheme ≡ bearer)))
require_iff_example = require_iff key header key
