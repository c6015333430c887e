-- ===== src/Harness/Served.antt =====
-- scripts/verify-remote-lifecycle.mjs against the stub: what the stub has been sent makes its state.
use opencode_remote_ssh.Base.{ℕ, ap, ◌∙◌, String, true, ◌≡◌, Option, some, none, [], ◌∷◌}
use opencode_remote_ssh.Effects.{Env, Trace, Request, Response, fetched}
use opencode_remote_ssh.Harness.Checks.{
  Json, Permission, Target, status_request, workspace_request, session_request, shell_request,
  list_request, reply_request, asks,
}
use opencode_remote_ssh.Stub.Store.{Workspace, Stub}
use opencode_remote_ssh.Stub.Handler.{Machine, Listed, Body, Answer, failure, success, permissions}
use opencode_remote_ssh.Stub.Calls.{
  handle, Call, handle, check_health, post_workspace, create_session_with, list_requests, run_shell,
  reply_to,
}

-- How a request is read, and how a body, or an error with its status and its type, is written as JSON.
pub record Wire : Type 0 where
  pub route : Request → Option Call
  pub shown : Body → String
  pub shown_error : ℕ → String → String

-- `JSON` and `Error`
abbrev pub response : Wire → Answer → Response
response wire (failure code kind) =
    let text = wire.shown_error code kind in record { status = code; text = text; json = some text }
response wire (success body) =
    let text = wire.shown body in record { status = 200; text = text; json = some text }

-- The stub on a machine that goes on with every call, from its state at the beginning.
module _ (wire : Wire) (machine : Trace → Machine) (start : Stub) where
  unfoldable pub answered : Trace → Option Call → Stub → Answer × Stub
  answered t none st = (failure 404 "not_found", st)
  answered t (some call) st = handle (machine t) call st

  unfoldable pub state_after : Trace → Stub
  unfolding answered
  state_after [] = start
  state_after (e ∷ t) =
      let before = state_after t in
      elim e [ fetched r ↦ (answered t (wire.route r) before).1 | _ ↦ before ]

  abbrev pub served : Env → Env
  served env = record env {
    fetch = λ t r. some (response wire (answered t (wire.route r) (state_after t)).0);
  }

-- An item as the stub lists it.
abbrev pub item_of : Listed → Permission
item_of l = record {
  id = l.request.id;
  session_id = l.request.session_id;
  permission = l.request.permission;
}

-- What the two programs agree on: how the requests of the harness are read, an answer to the
-- permission request of the given id among them, and how a list with one request of the session is
-- written and read again.
pub record IsWired (wire : Wire) (json : Json) (target : Target) (id : String) : Type 0 where
  pub workspace : Workspace
  pub workspace_id : workspace.id ≡ target.binding.workspace_id
  pub title : String
  pub health_route : wire.route (status_request target) ≡ some check_health
  pub workspace_route :
      wire.route (workspace_request target) ≡ some (post_workspace (some workspace))
  pub session_route :
      wire.route (session_request target)
      ≡ some (create_session_with (some (target.session_id, title, target.binding.workspace_id)))
  pub shell_route :
      wire.route (shell_request target) ≡ some (run_shell target.session_id (some ("pwd", [], [])))
  pub list_route : wire.route (list_request target) ≡ some list_requests
  pub reply_route : wire.route (reply_request target id) ≡ some (reply_to id (some "once"))
  pub reads :
      (l : Listed)
      → asks target (item_of l) ≡ true
      → json.listed (wire.shown (permissions (l ∷ []))) ≡ some (item_of l ∷ [])

module _ (wire : Wire) (machine : Trace → Machine) (start : Stub) (env : Env) where
  -- A request that the stub reads as a call: the state after it, and the answer.
  pub served-call :
      (t : Trace) (r : Request) (call : Call) (st : Stub) (answer : Answer) (next : Stub)
      → wire.route r ≡ some call
      → state_after wire machine start t ≡ st
      → handle (machine t) call st ≡ (answer, next)
      → (state_after wire machine start (fetched r ∷ t) ≡ next)
        × ((served wire machine start env).fetch t r ≡ some (response wire answer))
  unfolding state_after answered
  served-call t r call st answer next routed here run = (
    ap (λ o. (answered wire machine start t o (state_after wire machine start t)).1) routed
        ∙ ap (λ s. (handle (machine t) call s).1) here
        ∙ ap (λ x. x.1) run,
    ap
          (λ o.
            some (
              response wire (answered wire machine start t o (state_after wire machine start t)).0))
          routed
        ∙ ap (λ s. some (response wire (handle (machine t) call s).0)) here
        ∙ ap (λ x. some (response wire x.0)) run,
  )
