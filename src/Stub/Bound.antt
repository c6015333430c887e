-- ===== src/Stub/Bound.antt =====
-- How many commands the stub runs, where no reply is "always".
use opencode_remote_ssh.Base.{
  ℕ, ◌+◌, ◌≤◌, String, ◌≡◌, Option, none, some, List, [], ◌∷◌, All, Table, length, insert, values,
  arith, false, string_dec, Option-cases, inl, inr,
}
use opencode_remote_ssh.Stub.Patterns.{Bytes}
use opencode_remote_ssh.Stub.Store.{
  Session, PermissionRequest, Approval, Stub, get_session, get_permission, consume_approval,
  create_permission,
}
use opencode_remote_ssh.Stub.Approvals.{AllOnce, consume_approvals-length}
use opencode_remote_ssh.Stub.Handler.{
  Machine, Answer, health, workspace_post, workspace_delete, session_restore, session_create,
  session_get, session_delete, permission_list, permission_reply, session_permission_reply,
  answer_reply, apply_permission_reply, approve_first, shell, execute_command_like, execute_in,
  new_approval, directory_for,
}
use opencode_remote_ssh.Stub.Calls.{
  Call, handle, history, runs, total_runs, reply_of, is_reply, count, once_replies, post_workspace,
  delete_workspace_of, restore, get_session_of, delete_session_of, create_session_with,
  check_health, list_requests, reply_to, reply_in, run_shell, run_command,
}

insert-once :
    (id : String) (a : Approval) (t : Table Approval)
    → a.mode ≡ "once"
    → AllOnce t
    → (length (insert id a t) ≤ 1 + length t) × AllOnce (insert id a t)
unfolding insert values
insert-once id a [] once h = (ground arith, (once, tt))
insert-once id a (_ ∷ t) once h = ground (arith, insert-once id a t once)

-- What a step may do to the approvals: all stay for once, and the commands that it runs are paid for by
-- approvals that go, or by what it is given.
abbrev Pays : ℕ → Stub → Answer × Stub → Type 0
Pays given st r =
    (runs r.0 + length r.1.approvals ≤ given + length st.approvals) × AllOnce r.1.approvals

module _ (m : Machine) (st : Stub) (h : AllOnce st.approvals) where
  execute_in-Pays :
      (se : Session) (operation command : String) (cwd : Bytes) (variables : Table String)
      → Pays 0 st (execute_in m se operation command cwd variables st)
  unfolding execute_in consume_approval
  execute_in-Pays se operation command cwd variables =
      ground (arith, consume_approvals-length se.workspace_id cwd st.approvals h)

  shell-Pays :
      (operation id : String) (body : Option (String × Bytes × Table String))
      → Pays 0 st (shell m operation id body st)
  unfolding shell execute_command_like
  shell-Pays operation id none = grind arith
  shell-Pays operation id (some (command, cwd, variables)) =
      elim (Option-cases (get_session st id)) [
        | inl unknown ↦ ground arith
        | inr (se, known) ↦
            ground (arith, execute_in-Pays se operation command (directory_for se cwd) variables)
      ]

  approve_first-pays :
      (patterns : List Bytes) (p : PermissionRequest) (reply : String)
      → reply ≡ "once"
      → (length (approve_first m patterns p reply st).1.approvals ≤ 1 + length st.approvals)
        × AllOnce (approve_first m patterns p reply st).1.approvals
  unfolding approve_first
  approve_first-pays [] p reply e = (ground arith, h)
  approve_first-pays (pattern ∷ _) p reply e =
      let a = new_approval m p pattern reply in insert-once a.id a st.approvals e h

module _ (m : Machine) where
  apply_permission_reply-pays :
      (p : PermissionRequest) (reply : String) (st : Stub)
      → AllOnce st.approvals
      → is_reply "always" (some reply) ≡ false
      → (length (apply_permission_reply m p reply st).1.approvals
          ≤ count (is_reply "once" (some reply)) + length st.approvals)
        × AllOnce (apply_permission_reply m p reply st).1.approvals
  unfolding apply_permission_reply
  apply_permission_reply-pays p reply st h e =
      let next = create_permission st (record p { status = reply }) in
      elim (string_dec reply "once") [
        | yes once ↦ let paid = approve_first-pays m next h p.patterns p reply once in ground arith
        | no other ↦ ground arith
      ]

  answer_reply-Pays :
      (p : PermissionRequest) (reply : Option String) (st : Stub)
      → AllOnce st.approvals
      → is_reply "always" reply ≡ false
      → Pays (count (is_reply "once" reply)) st (answer_reply m p reply st)
  unfolding answer_reply
  answer_reply-Pays p none st h e = ground (arith)
  answer_reply-Pays p (some reply) st h e =
      ground (arith, apply_permission_reply-pays p reply st h e)

  handle-Pays :
      (call : Call) (st : Stub)
      → AllOnce st.approvals
      → is_reply "always" (reply_of call) ≡ false
      → Pays (count (is_reply "once" (reply_of call))) st (handle m call st)
  unfolding handle health workspace_post workspace_delete session_restore session_create session_get
      session_delete permission_list permission_reply session_permission_reply
  handle-Pays (post_workspace none) st h e = ground arith
  handle-Pays (post_workspace (some given)) st h e = ground arith
  handle-Pays (delete_workspace_of id) st h e = ground arith
  handle-Pays (restore id) st h e = ground arith
  handle-Pays (get_session_of id) st h e = ground arith
  handle-Pays (delete_session_of id) st h e = ground arith
  handle-Pays (create_session_with none) st h e = ground arith
  handle-Pays (create_session_with (some given)) st h e = ground arith
  handle-Pays check_health st h e = ground arith
  handle-Pays list_requests st h e = ground arith
  handle-Pays (reply_to id reply) st h e = elim (Option-cases (get_permission st id)) [
    | inl unknown ↦ ground arith
    | inr (p, known) ↦ ground (arith, answer_reply-Pays p reply st h e)
  ]
  handle-Pays (reply_in session_id id reply) st h e = elim (Option-cases (get_permission st id)) [
    | inl unknown ↦ ground arith
    | inr (p, known) ↦ ground (arith, answer_reply-Pays p reply st h e)
  ]
  handle-Pays (run_shell id body) st h e = shell-Pays m st h "shell" id body
  handle-Pays (run_command id body) st h e = shell-Pays m st h "command" id body

-- Of calls one after the other, none replies "always".
abbrev pub NeverAlways : List (Machine × Call) → Type 0
NeverAlways calls = All (λ (m, call). is_reply "always" (reply_of call) ≡ false) calls

-- Where every approval is for once and no call replies "always", at most as many commands run over any
-- sequence of calls as there are approvals at the start and replies "once" among the calls.
pub history-total_runs :
    (calls : List (Machine × Call)) (st : Stub)
    → AllOnce st.approvals
    → NeverAlways calls
    → total_runs (history calls st).0 ≤ length st.approvals + once_replies calls
unfolding history total_runs once_replies
history-total_runs [] st h never = ground arith
history-total_runs ((m, call) ∷ calls) st h (e, never) =
    let (paid, h') = handle-Pays m call st h e in
    let later = history-total_runs calls (handle m call st).1 h' never in omega arith
