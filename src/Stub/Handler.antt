-- ===== src/Stub/Handler.antt =====
-- stub/internal/handler/handler.go: workspaces, sessions, permissions and commands. A request body is
-- `none` where it cannot be decoded. Events that are published, and the log, are not kept.
use opencode_remote_ssh.Base.{
  ℕ, String, ◌<>◌, Bool, true, false, Option, none, some, List, [], ◌∷◌, ◌++◌, Table, lookup,
  show_nat, is_empty, if◌then◌else◌, ◌==◌, ◌||◌, map,
}
use opencode_remote_ssh.Types.{ExtraValue, text}
use opencode_remote_ssh.Stub.Patterns.{Bytes, subtree}
use opencode_remote_ssh.Stub.Store.{
  Workspace, Session, PermissionRequest, Approval, Stub, get_workspace, get_session, get_permission,
  list_permissions, list_sessions_by_workspace, create_workspace, delete_workspace, create_session,
  delete_session, create_permission, create_approval, check_approval, consume_approval,
}

-- What a handler asks of its surroundings: the readings of the clock, in their order, the home
-- directory, whether a file can be written, and how a command ends.
pub record Machine : Type 0 where
  pub clock : ℕ → ℕ
  pub home : Bytes
  pub writes : String → Bool
  pub run : String → Bytes → Table String → String × ℕ

-- A listed permission request, with the patterns that are always allowed.
pub record Listed : Type 0 where
  pub request : PermissionRequest
  pub always : List Bytes

pub data Body : Type 0 where
  done alive : Body
  workspace : Workspace → Body
  session : Session → String → Body
  sessions : List Session → Body
  permissions : List Listed → Body
  ran : String → ℕ → Body

-- The status of an error with its type, or 200 with a body.
pub data Answer : Type 0 where
  failure : ℕ → String → Answer
  success : Body → Answer

abbrev pub text_of : Option ExtraValue → String → String
text_of (some (text s)) other = s
text_of _ other = other

-- `if cwd == "" { cwd = se.Directory }`
abbrev pub directory_for : Session → Bytes → Bytes
directory_for se [] = se.directory
directory_for se (b ∷ cwd) = b ∷ cwd

module _ (machine : Machine) where
  -- `Health`; what it tells of the host and the program is not kept.
  unfoldable pub health : Stub → Answer × Stub
  health st = (success alive, st)

  -- `WorkspaceList`, for POST.
  unfoldable pub workspace_post : Option Workspace → Stub → Answer × Stub
  workspace_post none st = (failure 400 "invalid_request", st)
  workspace_post (some given) st =
      let ws : Workspace = record given {
        status = "ready";
        created_at = machine.clock 0;
        host = text_of (lookup "host" given.extra) given.host;
        provider = text_of (lookup "provider" given.extra) given.provider;
      } in
      let next = create_workspace st ws in
      if machine.writes ("workspaces/" <> ws.id <> "/workspace.json")
      then (success (workspace ws), next)
      else (failure 500 "internal_error", next)

  -- The DELETE of `WithWorkspaceRoutes`; the sessions of the workspace stay.
  unfoldable pub workspace_delete : String → Stub → Answer × Stub
  workspace_delete id st = (success done, delete_workspace st id)

  unfoldable pub session_restore : String → Stub → Answer × Stub
  session_restore id st = elim (get_workspace st id) [
    | none ↦ (failure 404 "not_found", st)
    | some ws ↦ (success (sessions (list_sessions_by_workspace st id)), st)
  ]

  -- The body of `SessionCreate`: id, title and workspace.
  unfoldable pub session_create : Option (String × String × String) → Stub → Answer × Stub
  session_create none st = (failure 400 "invalid_request", st)
  session_create (some (id, title, workspace_id)) st = elim (get_workspace st workspace_id) [
    | none ↦ (failure 404 "not_found", st)
    | some ws ↦
        let session_id = if is_empty id then "sess_" <> show_nat (machine.clock 0) else id in
        let se : Session = record {
          id = session_id;
          workspace_id = workspace_id;
          title = title;
          directory = machine.home;
          status = "idle";
          created_at = machine.clock 1;
          updated_at = machine.clock 2;
        } in
        let next = create_session st se in
        if machine.writes ("sessions/" <> session_id <> ".json")
        then (success (session se ws.project_id), next)
        else (failure 500 "internal_error", next)
  ]

  unfoldable pub session_get : String → Stub → Answer × Stub
  session_get id st = elim (get_session st id) [
    | none ↦ (failure 404 "not_found", st)
    | some se ↦
        let project : String = elim (get_workspace st se.workspace_id) [
          | none ↦ "unknown"
          | some ws ↦ ws.project_id
        ] in
        (success (session se project), st)
  ]

  unfoldable pub session_delete : String → Stub → Answer × Stub
  session_delete id st = (success done, delete_session st id)

  -- The approval that counts here is one for the empty path.
  abbrev pub always_of : Stub → PermissionRequest → List Bytes
  always_of st p = elim (check_approval st p.workspace_id []) [
    | none ↦ []
    | some a ↦ if a.mode == "always" then a.pattern ∷ [] else []
  ]

  unfoldable pub permission_list : Stub → Answer × Stub
  permission_list st = (
    success (
        permissions
          (map (λ p. record { request = p; always = always_of st p }) (list_permissions st))),
    st,
  )

  -- The approval that a reply makes, from the first pattern of the request.
  abbrev pub new_approval : PermissionRequest → Bytes → String → Approval
  new_approval p pattern reply = record {
    id = "apr_" <> show_nat (machine.clock 0);
    workspace_id = p.workspace_id;
    host = "default";
    permission = p.permission;
    pattern = pattern;
    mode = reply;
    created_at = machine.clock 1;
  }

  unfoldable pub approve_first : List Bytes → PermissionRequest → String → Stub → Bool × Stub
  approve_first [] p reply st = (false, st)
  approve_first (pattern ∷ _) p reply st =
      let a = new_approval p pattern reply in
      (machine.writes ("approvals/" <> a.id <> ".json"), create_approval st a)

  -- Whether it worked: the error of `applyPermissionReply` becomes a 400.
  unfoldable pub apply_permission_reply : PermissionRequest → String → Stub → Bool × Stub
  unfolding approve_first
  apply_permission_reply p reply st =
      let next = create_permission st (record p { status = reply }) in
      if (reply == "always") || (reply == "once")
      then approve_first p.patterns p reply next
      else (true, next)

  unfoldable pub answer_reply : PermissionRequest → Option String → Stub → Answer × Stub
  unfolding apply_permission_reply
  answer_reply p none st = (failure 400 "invalid_request", st)
  answer_reply p (some reply) st =
      let (worked, next) = apply_permission_reply p reply st in
      (if worked then success done else failure 400 "invalid_request", next)

  unfoldable pub permission_reply : String → Option String → Stub → Answer × Stub
  unfolding answer_reply
  permission_reply id reply st = elim (get_permission st id) [
    | none ↦ (failure 404 "not_found", st)
    | some p ↦ answer_reply p reply st
  ]

  unfoldable pub session_permission_reply : String → String → Option String → Stub → Answer × Stub
  unfolding answer_reply
  session_permission_reply session_id id reply st = elim (get_session st session_id) [
    | none ↦ (failure 404 "not_found", st)
    | some _ ↦ elim (get_permission st id) [
      | none ↦ (failure 404 "not_found", st)
      | some p ↦
          if p.session_id == session_id
          then answer_reply p reply st
          else (failure 404 "not_found", st)
    ]
  ]

  abbrev pub asked : Session → String → Bytes → PermissionRequest
  asked se operation cwd = record {
    id = "perm_" <> show_nat (machine.clock 0);
    session_id = se.id;
    workspace_id = se.workspace_id;
    permission = "path.access";
    patterns = (cwd ++ subtree) ∷ [];
    operation = operation;
    cwd = cwd;
    status = "pending";
    created_at = machine.clock 1;
  }

  unfoldable pub execute_in :
      Session → String → String → Bytes → Table String → Stub → Answer × Stub
  execute_in se operation command cwd variables st =
      let (found, next) = consume_approval st se.workspace_id cwd in
      elim found [
        | none ↦
            (failure 403 "permission_required", create_permission next (asked se operation cwd))
        | some a ↦
            let (output, code) = machine.run command cwd variables in
            (success (ran output code), next)
      ]

  unfoldable pub execute_command_like :
      Session → String → String → Bytes → Table String → Stub → Answer × Stub
  unfolding execute_in
  execute_command_like se operation command cwd variables st =
      execute_in se operation command (directory_for se cwd) variables st

  -- `Shell` and `Command`, by the operation; the body is the command, the directory
  -- and the environment.
  unfoldable pub shell :
      String → String → Option (String × Bytes × Table String) → Stub → Answer × Stub
  unfolding execute_command_like
  shell operation id body st = elim (get_session st id) [
    | none ↦ (failure 404 "not_found", st)
    | some se ↦ elim body [
      | none ↦ (failure 400 "invalid_request", st)
      | some (command, cwd, variables) ↦ execute_command_like se operation command cwd variables st
    ]
  ]
