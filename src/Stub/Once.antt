-- ===== src/Stub/Once.antt =====
-- A command that waits for permission, and the reply "once"
-- (stub/internal/handler/handler.go, stub/internal/state/state.go).
use opencode_remote_ssh.Base.{
  String, ◌≡◌, refl, some, ◌++◌, Table, insert, arith, sym, ap, ◌∙◌, ◌<>◌, lookup-insert, true, inl,
  inr, subst,
}
use opencode_remote_ssh.Stub.Patterns.{Bytes, subtree, match_pattern}
use opencode_remote_ssh.Stub.Patterns.Meaning.{match_pattern_iff}
use opencode_remote_ssh.Stub.Store.{
  Session, PermissionRequest, Approval, Stub, get_session, get_permission, allows,
  consume_approvals, consume_approval, create_permission, create_approval,
}
use opencode_remote_ssh.Stub.Approvals.{NoneAllows, consume_approvals-none, consume_approvals-new}
use opencode_remote_ssh.Stub.Handler.{
  Machine, ran, Answer, success, done, failure, asked, directory_for, execute_in,
  execute_command_like, shell, permission_reply, answer_reply, apply_permission_reply,
  approve_first, new_approval,
}

-- Commands of one session, each on a machine of its own, since the clock goes on.
module _ (se : Session) (operation command : String) (cwd : Bytes) (variables : Table String) where
  abbrev dir : Bytes
  dir = directory_for se cwd

  abbrev pub run_on : Machine → Stub → Answer × Stub
  run_on machine = shell machine operation se.id (some (command, cwd, variables))

  abbrev pub request_of : Machine → PermissionRequest
  request_of machine = asked machine se operation dir

  abbrev pub approval_of : Machine → Machine → Approval
  approval_of asking replying = new_approval replying (request_of asking) (dir ++ subtree) "once"

  -- What no approval allows is refused, and its request is kept.
  pub run_on-refused :
      (machine : Machine) (st : Stub)
      → get_session st se.id ≡ some se
      → NoneAllows se.workspace_id dir st.approvals
      → run_on machine st
        ≡ (failure 403 "permission_required", create_permission st (request_of machine))
  unfolding shell execute_command_like execute_in consume_approval
  run_on-refused machine st known refused =
      let nothing = consume_approvals-none se.workspace_id dir st.approvals refused in ground arith

  -- What the first approval allows runs.
  run_on-allowed :
      (machine : Machine) (st : Stub) (a : Approval)
      → get_session st se.id ≡ some se
      → (consume_approvals se.workspace_id dir st.approvals).0 ≡ some a
      → run_on machine st ≡ (
        success (ran (machine.run command dir variables).0 (machine.run command dir variables).1),
        record st { approvals = (consume_approvals se.workspace_id dir st.approvals).1 },
      )
  unfolding shell execute_command_like execute_in consume_approval
  run_on-allowed machine st a known found = ground arith

  reply_once :
      (asking replying : Machine) (st : Stub)
      → get_permission st (request_of asking).id ≡ some (request_of asking)
      → replying.writes ("approvals/" <> (approval_of asking replying).id <> ".json") ≡ true
      → permission_reply replying (request_of asking).id (some "once") st ≡ (
        success done,
        create_approval
            (create_permission st (record (request_of asking) { status = "once" }))
            (approval_of asking replying),
      )
  unfolding permission_reply answer_reply apply_permission_reply approve_first
  reply_once asking replying st listed writes = ground arith

  allows-new :
      (asking replying : Machine) → allows se.workspace_id dir (approval_of asking replying) ≡ true
  allows-new asking replying =
      let matches : match_pattern (dir ++ subtree) dir ≡ true =
        (match_pattern_iff (dir ++ subtree) dir).1 (inr (inl (dir, refl, inl refl))) in
      ground arith

  module _ (asking replying first second : Machine) (st : Stub) where
    abbrev pub refused : Answer × Stub
    refused = run_on asking st

    abbrev pub replied : Answer × Stub
    replied = permission_reply replying (request_of asking).id (some "once") refused.1

    abbrev pub executed : Answer × Stub
    executed = run_on first replied.1

    abbrev pub again : Answer × Stub
    again = run_on second executed.1

    -- Where no approval allows the directory of a command, the command is refused, and its request is
    -- kept. If the approval can be written, the reply "once" to that request is accepted, the same
    -- command then runs, and the next one is refused again.
    pub executed-once :
        get_session st se.id ≡ some se
        → NoneAllows se.workspace_id dir st.approvals
        → replying.writes ("approvals/" <> (approval_of asking replying).id <> ".json") ≡ true
        → (refused.0 ≡ failure 403 "permission_required")
          × (get_permission refused.1 (request_of asking).id ≡ some (request_of asking))
          × (replied.0 ≡ success done)
          × (executed.0
              ≡ success
                  (ran (first.run command dir variables).0 (first.run command dir variables).1))
          × (again.0 ≡ failure 403 "permission_required")
    executed-once known nothing writes =
        let e1 = run_on-refused asking st known nothing in
        let listed : get_permission refused.1 (request_of asking).id ≡ some (request_of asking) =
          ap (λ r. get_permission r.1 (request_of asking).id) e1
          ∙ lookup-insert (request_of asking).id (request_of asking).id (request_of asking)
              st.permissions
          ∙ ground arith in
        let e2 = reply_once asking replying refused.1 listed writes in
        let unchanged : refused.1.approvals ≡ st.approvals = ap (λ r. r.1.approvals) e1 in
        let (found, left) =
          consume_approvals-new se.workspace_id dir (approval_of asking replying) st.approvals
            nothing (allows-new asking replying) refl in
        let approvals : replied.1.approvals
            ≡ insert (approval_of asking replying).id (approval_of asking replying) st.approvals =
          ap (λ r. r.1.approvals) e2 ∙ ap (insert _ _) unchanged in
        let known2 : get_session replied.1 se.id ≡ some se =
          ap (λ r. get_session r.1 se.id) e2 ∙ ap (λ r. get_session r.1 se.id) e1 ∙ known in
        let e3 =
          run_on-allowed first replied.1 (approval_of asking replying) known2
            (ap (λ t. (consume_approvals se.workspace_id dir t).0) approvals ∙ found) in
        let known3 : get_session executed.1 se.id ≡ some se =
          ap (λ r. get_session r.1 se.id) e3 ∙ known2 in
        let nothing3 : NoneAllows se.workspace_id dir executed.1.approvals =
          subst (λ t. NoneAllows se.workspace_id dir t)
            (sym (
              ap (λ r. r.1.approvals) e3
              ∙ ap (λ t. (consume_approvals se.workspace_id dir t).1) approvals))
            left in
        let e4 = run_on-refused second executed.1 known3 nothing3 in
        (ap (λ r. r.0) e1, listed, ap (λ r. r.0) e2, ap (λ r. r.0) e3, ap (λ r. r.0) e4)
