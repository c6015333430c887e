-- ===== src/Harness/Checks.antt =====
-- scripts/verify-remote-lifecycle.mjs: the requests that `main` sends to the stub.
use opencode_remote_ssh.Base.{
  String, ◌<>◌, Bool, ◌&&◌, Option, none, some, List, find, if◌then◌else◌, ◌==◌, eqb,
}
use opencode_remote_ssh.Types.{
  WorkspaceBinding, request_failed, shell_failed, permission_missing, external,
}
use opencode_remote_ssh.Effects.{
  Env, Io, Method, Request, Payload, is_success, fetch, pure, throw, ◌>>=◌, ◌>>◌,
}
use opencode_remote_ssh.Ssh.Probe.{local_url}

-- An item of the stub's list of permission requests.
pub record Permission : Type 0 where
  pub id : String
  pub session_id : String
  pub permission : String

-- What JSON.parse and JSON.stringify make of the text of an answer: the body as an error shows it,
-- and the list that it stands for, if it is one.
pub record Json : Type 0 where
  pub shown : String → String
  pub listed : String → Option (List Permission)

-- The workspace and the session that the checks go through.
pub record Target : Type 0 where
  pub binding : WorkspaceBinding
  pub session_id : String

-- What the stub answered to the first and the last request.
pub record Verified : Type 0 where
  pub health : String
  pub shell : String

module _ (target : Target) where
  abbrev pub request : Method → String → Option Payload → Request
  request method path payload = record {
    method = method;
    url = local_url target.binding.local_port path;
    token = some target.binding.token;
    payload = payload;
  }

  abbrev pub shell_request : Request
  shell_request =
      request Method.post ("/session/" <> target.session_id <> "/shell")
        (some (Payload.command "pwd"))

  abbrev pub reply_request : String → Request
  reply_request id =
      request Method.post ("/permission/" <> id <> "/reply") (some (Payload.reply "once"))

  abbrev pub status_request : Request
  status_request = request Method.get "/global/health" none

  abbrev pub workspace_request : Request
  workspace_request =
      let b = target.binding in
      request Method.post "/experimental/workspace"
        (some (Payload.workspace b.workspace_id "Harness Workspace" b.provider b.host))

  abbrev pub session_request : Request
  session_request =
      request Method.post "/session"
        (some (Payload.session target.session_id "Harness Session" target.binding.workspace_id))

  abbrev pub list_request : Request
  list_request = request Method.get "/permission" none

  -- `item.sessionID === sessionID && item.permission === "path.access"`
  abbrev pub asks : Permission → Bool
  asks item = (item.session_id == target.session_id) && (item.permission == "path.access")

module _ (env : Env) (json : Json) where
  -- `assertOk`, with its `jsonFetch`: the text of an answer that is a success.
  unfoldable pub assert_ok : String → Request → Io String
  assert_ok label request = do
    response ← fetch env request
    if is_success response
        then pure response.text
        else throw (request_failed label response.status (json.shown response.text))

  module _ (target : Target) where
    -- What is done with the list of permission requests; `find` is missing where it is no list.
    unfoldable pub approve_listed : String → Option (List Permission) → Io (Unit {0})
    unfolding assert_ok
    approve_listed text none = throw (external "call failed")
    approve_listed text (some items) = elim (find (asks target) items) [
      | none ↦ throw (permission_missing (json.shown text))
      | some item ↦ do assert_ok "permission approve" (reply_request target item.id); pure tt
    ]

    unfoldable pub approve : Io (Unit {0})
    unfolding assert_ok approve_listed
    approve = do
      text ← assert_ok "permission list" (list_request target)
      approve_listed text (json.listed text)

    -- The first run of the command, which the stub may refuse until it is permitted.
    unfoldable pub probe_shell : Io (Unit {0})
    unfolding approve
    probe_shell = do
      response ← fetch env (shell_request target)
      if eqb response.status 403
          then approve
          else if is_success response
          then pure tt
          else throw (shell_failed response.status (json.shown response.text))

    -- The body of the `try` in `main`.
    unfoldable pub checks : Io Verified
    unfolding assert_ok probe_shell
    checks = do
      health ← assert_ok "health" (status_request target)
      assert_ok "workspace create" (workspace_request target)
      assert_ok "session create" (session_request target)
      probe_shell
      shell ← assert_ok "shell" (shell_request target)
      pure (record { health = health; shell = shell })
