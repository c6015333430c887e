-- ===== src/Harness/Together.antt =====
-- scripts/verify-remote-lifecycle.mjs and the stub, run together.
use opencode_remote_ssh.Base.{
  String, false, true, ◌≡◌, refl, some, List, [], ◌∷◌, All, map, values, lookup-insert, arith, ap,
  ◌∙◌, is_empty, ◌==◌, find, filter, insert, ◌<>◌, show_nat,
}
use opencode_remote_ssh.Types.{ok}
use opencode_remote_ssh.Effects.{Env, Trace, Request, is_success, fetched}
use opencode_remote_ssh.Ssh.Probe.Waiting.{passes}
use opencode_remote_ssh.Harness.Checks.{
  Json, Permission, Target, Verified, status_request, workspace_request, session_request,
  shell_request, list_request, reply_request, asks, checks,
}
use opencode_remote_ssh.Harness.Guarded.{
  is_refusal, IsGuarded, opened, asked_for, listed_at, approved_at,
}
use opencode_remote_ssh.Harness.Answered.{checks-completes}
use opencode_remote_ssh.Stub.Store.{
  allows, create_permission, Workspace, Session, PermissionRequest, Stub, list_permissions,
  get_workspace, get_session, create_workspace, create_session,
}
use opencode_remote_ssh.Stub.Handler.{
  Machine, Listed, Body, Answer, failure, success, permissions, alive, always_of, workspace,
  session, health, workspace_post, session_create, permission_list,
}
use opencode_remote_ssh.Stub.Calls.{
  handle, check_health, post_workspace, create_session_with, list_requests, run_shell, reply_to,
}
use opencode_remote_ssh.Stub.Opened.{made, workspace_post-made, session_of, session_create-made}
use opencode_remote_ssh.Stub.Once.{
  executed-once, run_on-refused, refused, replied, executed, request_of,
}
use opencode_remote_ssh.Stub.Approvals.{others-NoneAllows}
use opencode_remote_ssh.Harness.Served.{
  served-call, Wire, response, state_after, served, served-call, IsWired,
}

module _ (wire : Wire) (json : Json) (target : Target) (machine : Trace → Machine) (start : Stub)
    (env : Env) where
  abbrev after : Trace → Stub
  after = state_after wire machine start

  abbrev online : Env
  online = served wire machine start env

  -- The id that the stub gives to the permission request of the first command.
  abbrev pub request_id : Trace → String
  request_id t = "perm_" <> show_nat ((machine (opened env json target t)).clock 0)

  module _ (t : Trace) (wired : IsWired wire json target (request_id t)) (st : Stub)
      (here : after t ≡ st) (no_requests : st.permissions ≡ [])
      (unapproved : All
        (λ a. a.workspace_id == target.binding.workspace_id ≡ false)
        (values st.approvals))
      (named : is_empty target.session_id ≡ false)
      (writes : (u : Trace) (path : String) → (machine u).writes path ≡ true) where
    abbrev t1 : Trace
    t1 = fetched (status_request target) ∷ t

    abbrev t2 : Trace
    t2 = fetched (workspace_request target) ∷ t1

    abbrev t3 : Trace
    t3 = opened env json target t

    abbrev the_workspace : Workspace
    the_workspace = made (machine t1) (writes t1) wired.workspace

    abbrev with_workspace : Stub
    with_workspace = create_workspace st the_workspace

    abbrev the_session : Session
    the_session =
        session_of (machine t2) (writes t2) target.session_id wired.title
          target.binding.workspace_id

    abbrev with_session : Stub
    with_session = create_session with_workspace the_session

    health_step :
        (after t1 ≡ st)
        × (online.fetch t (status_request target) ≡ some (response wire (success alive)))
    unfolding handle health
    health_step =
        served-call wire machine start env t (status_request target) check_health st (success alive)
          st wired.health_route here refl

    workspace_step :
        (after t2 ≡ with_workspace)
        × (online.fetch t1 (workspace_request target)
            ≡ some (response wire (success (workspace the_workspace))))
    unfolding handle workspace_post
    workspace_step =
        served-call wire machine start env t1 (workspace_request target)
          (post_workspace (some wired.workspace)) st (success (workspace the_workspace))
          with_workspace wired.workspace_route health_step.0
          (workspace_post-made (machine t1) (writes t1) wired.workspace st)

    workspace_known : get_workspace with_workspace target.binding.workspace_id ≡ some the_workspace
    workspace_known =
        lookup-insert target.binding.workspace_id the_workspace.id the_workspace st.workspaces
        ∙ ground (arith, wired.workspace_id)

    session_step :
        (after t3 ≡ with_session)
        × (online.fetch t2 (session_request target)
            ≡ some (response wire (success (session the_session the_workspace.project_id))))
    unfolding handle session_create
    session_step =
        served-call wire machine start env t2 (session_request target)
          (create_session_with (some (target.session_id, wired.title, target.binding.workspace_id)))
          with_workspace (success (session the_session the_workspace.project_id)) with_session
          wired.session_route workspace_step.0
          (session_create-made (machine t2) (writes t2) target.session_id wired.title
            target.binding.workspace_id the_workspace with_workspace named workspace_known)

    session_known : get_session with_session the_session.id ≡ some the_session
    session_known =
        lookup-insert the_session.id the_session.id the_session st.sessions ∙ ground arith

    -- The permission request that the refused command leaves.
    abbrev request : PermissionRequest
    request = request_of the_session "shell" "pwd" [] [] (machine t3)

    abbrev item : Permission
    item = record {
      id = request.id;
      session_id = request.session_id;
      permission = request.permission;
    }

    abbrev t4 : Trace
    t4 = asked_for env json target t

    abbrev t5 : Trace
    t5 = listed_at env json target t

    abbrev t6 : Trace
    t6 = approved_at env json target item t

    abbrev at_shell : Answer × Stub
    at_shell =
        refused the_session "shell" "pwd" [] [] (machine t3) (machine t5) (machine t6) (machine t)
          with_session

    abbrev at_reply : Answer × Stub
    at_reply =
        replied the_session "shell" "pwd" [] [] (machine t3) (machine t5) (machine t6) (machine t)
          with_session

    abbrev at_end : Answer × Stub
    at_end =
        executed the_session "shell" "pwd" [] [] (machine t3) (machine t5) (machine t6) (machine t)
          with_session

    abbrev none_allows :
        All
          (λ a. allows target.binding.workspace_id the_session.directory a ≡ false)
          (values st.approvals)
    none_allows =
        others-NoneAllows target.binding.workspace_id the_session.directory (values st.approvals)
          unapproved

    refused_run :
        at_shell ≡ (failure 403 "permission_required", create_permission with_session request)
    refused_run =
        run_on-refused the_session "shell" "pwd" [] [] (machine t3) with_session session_known
          none_allows

    shell_step :
        (after t4 ≡ at_shell.1)
        × (online.fetch t3 (shell_request target) ≡ some (response wire at_shell.0))
    unfolding handle
    shell_step =
        served-call wire machine start env t3 (shell_request target)
          (run_shell target.session_id (some ("pwd", [], []))) with_session at_shell.0 at_shell.1
          wired.shell_route session_step.0 refl

    pending : list_permissions at_shell.1 ≡ request ∷ []
    unfolding list_permissions values insert
    pending =
        ap (λ r. list_permissions r.1) refused_run
        ∙ ap (λ ps. filter (λ p. p.status == "pending") (values (insert request.id request ps)))
            no_requests
        ∙ ground arith

    abbrev the_listed : Listed
    the_listed = record { request = request; always = always_of (machine t4) at_shell.1 request }

    abbrev listing : List Listed
    listing = the_listed ∷ []

    list_run : permission_list (machine t4) at_shell.1 ≡ (success (permissions listing), at_shell.1)
    unfolding permission_list
    list_run =
        ap
          (λ ps. (
            success (
                permissions (
                  map (λ p. record { request = p; always = always_of (machine t4) at_shell.1 p })
                    ps)),
            at_shell.1,
          ))
          pending

    list_step :
        (after t5 ≡ at_shell.1)
        × (online.fetch t4 (list_request target)
            ≡ some (response wire (success (permissions listing))))
    unfolding handle
    list_step =
        served-call wire machine start env t4 (list_request target) list_requests at_shell.1
          (success (permissions listing)) at_shell.1 wired.list_route shell_step.0 list_run

    asked_here : asks target item ≡ true
    asked_here = ground arith

    found : find (asks target) (item ∷ []) ≡ some item
    found = ground arith

    reply_step :
        (after t6 ≡ at_reply.1)
        × (online.fetch t5 (reply_request target item.id) ≡ some (response wire at_reply.0))
    unfolding handle
    reply_step =
        served-call wire machine start env t5 (reply_request target item.id)
          (reply_to item.id (some "once")) at_shell.1 at_reply.0 at_reply.1 wired.reply_route
          list_step.0 refl

    last_step : online.fetch t6 (shell_request target) ≡ some (response wire at_end.0)
    unfolding handle
    last_step =
        (served-call wire machine start env t6 (shell_request target)
          (run_shell target.session_id (some ("pwd", [], []))) at_reply.1 at_end.0 at_end.1
          wired.shell_route reply_step.0 refl).1

    -- The stub answers the requests of the checks as they expect.
    served-IsGuarded : IsGuarded online json target t
    served-IsGuarded =
        let (refusal, kept, accepted, ran_it, again) =
          executed-once the_session "shell" "pwd" [] [] (machine t3) (machine t5) (machine t6)
            (machine t) with_session session_known none_allows (writes t5 _) in
        let ok_of =
          λ (u : Trace) (r : Request) (body : Body)
              (e : online.fetch u r ≡ some (response wire (success body))).
            ap (passes is_success) e in
        record {
          healthy = ok_of t (status_request target) alive health_step.1;
          makes_workspace =
              ok_of t1 (workspace_request target) (workspace the_workspace) workspace_step.1;
          makes_session =
              ok_of t2 (session_request target) (session the_session the_workspace.project_id)
                session_step.1;
          refuses =
              ap (passes is_refusal) shell_step.1
              ∙ ap (λ a. passes is_refusal (some (response wire a))) refusal;
          answer = response wire (success (permissions listing));
          answers = list_step.1;
          answer_is_success = refl;
          items = item ∷ [];
          item = item;
          lists = wired.reads the_listed asked_here;
          finds = found;
          accepts =
              ap (passes is_success) reply_step.1
              ∙ ap (λ a. passes is_success (some (response wire a))) accepted;
          allows =
              ap (passes is_success) last_step
              ∙ ap (λ a. passes is_success (some (response wire a))) ran_it;
        }

    -- Run against the stub, with its requests read as the stub's routes mean them, the checks of the
    -- harness return, if the stub can write its files, has no permission request and no approval for the
    -- new workspace, and the session's id is not empty. The last that they do is to run the command
    -- again, right after their answer to the permission request that its first run has left.
    pub checks-served :
        (result : Verified) × (checks online json target t
          ≡ (ok result, fetched (shell_request target) ∷ approved_at online json target item t))
    unfolding served-IsGuarded
    checks-served = checks-completes online json target t served-IsGuarded
