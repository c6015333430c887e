-- ===== src/Stub/Calls.antt =====
-- The requests that stub/cmd/main.go and `WithWorkspaceRoutes` hand on, past the check of the token.
use opencode_remote_ssh.Base.{
  ℕ, ◌+◌, String, Option, some, none, List, [], ◌∷◌, Table, Bool, true, false, ◌==◌,
}
use opencode_remote_ssh.Stub.Patterns.{Bytes}
use opencode_remote_ssh.Stub.Store.{Workspace, Stub}
use opencode_remote_ssh.Stub.Handler.{
  Machine, ran, Answer, success, health, workspace_post, workspace_delete, session_restore,
  session_create, session_get, session_delete, permission_list, permission_reply,
  session_permission_reply, shell,
}

pub data Call : Type 0 where
  post_workspace : Option Workspace → Call
  delete_workspace_of restore get_session_of delete_session_of : String → Call
  create_session_with : Option (String × String × String) → Call
  check_health list_requests : Call
  reply_to : String → Option String → Call
  reply_in : String → String → Option String → Call
  run_shell run_command : String → Option (String × Bytes × Table String) → Call

unfoldable pub handle : Machine → Call → Stub → Answer × Stub
handle m (post_workspace given) st = workspace_post m given st
handle m (delete_workspace_of id) st = workspace_delete m id st
handle m (restore id) st = session_restore m id st
handle m (get_session_of id) st = session_get m id st
handle m (delete_session_of id) st = session_delete m id st
handle m (create_session_with given) st = session_create m given st
handle m check_health st = health m st
handle m list_requests st = permission_list m st
handle m (reply_to id reply) st = permission_reply m id reply st
handle m (reply_in session_id id reply) st = session_permission_reply m session_id id reply st
handle m (run_shell id body) st = shell m "shell" id body st
handle m (run_command id body) st = shell m "command" id body st

-- Calls one after the other, each on the machine as it is then: the answers, and the state at the end.
unfoldable pub history : List (Machine × Call) → Stub → List Answer × Stub
history [] st = ([], st)
history ((m, call) ∷ calls) st =
    let (answer, next) = handle m call st in
    let (answers, last) = history calls next in (answer ∷ answers, last)

-- Commands that were run.
abbrev pub runs : Answer → ℕ
runs (success (ran output code)) = 1
runs _ = 0

unfoldable pub total_runs : List Answer → ℕ
total_runs [] = 0
total_runs (answer ∷ answers) = runs answer + total_runs answers

-- The reply of a call, if it is one.
abbrev pub reply_of : Call → Option String
reply_of (reply_to id reply) = reply
reply_of (reply_in session_id id reply) = reply
reply_of _ = none

abbrev pub is_reply : String → Option String → Bool
is_reply reply none = false
is_reply reply (some given) = given == reply

abbrev pub count : Bool → ℕ
count true = 1
count false = 0

-- The replies "once" among the calls.
unfoldable pub once_replies : List (Machine × Call) → ℕ
once_replies [] = 0
once_replies ((m, call) ∷ calls) = count (is_reply "once" (reply_of call)) + once_replies calls
