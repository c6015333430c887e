-- ===== src/Stub/Store.antt =====
-- stub/internal/state/state.go. A Go map is a table; `range` visits it in any order, so that what
-- holds of every table holds whatever order is met.
use opencode_remote_ssh.Base.{
  ℕ, String, Bool, ◌&&◌, Option, none, some, List, [], ◌∷◌, filter, Table, lookup, insert, erase,
  values, if◌then◌else◌, ◌==◌,
}
use opencode_remote_ssh.Types.{ExtraValue}
use opencode_remote_ssh.Stub.Patterns.{Bytes, match_pattern}

pub record Workspace : Type 0 where
  pub id : String
  pub type : String
  pub name : String
  pub project_id : String
  pub provider : String
  pub host : String
  pub status : String
  pub created_at : ℕ
  pub extra : Table ExtraValue

pub record Session : Type 0 where
  pub id : String
  pub workspace_id : String
  pub title : String
  pub directory : Bytes
  pub status : String
  pub created_at : ℕ
  pub updated_at : ℕ

-- `metadata` has the operation and the directory; `always` is never set.
pub record PermissionRequest : Type 0 where
  pub id : String
  pub session_id : String
  pub workspace_id : String
  pub permission : String
  pub patterns : List Bytes
  pub operation : String
  pub cwd : Bytes
  pub status : String
  pub created_at : ℕ

pub record Approval : Type 0 where
  pub id : String
  pub workspace_id : String
  pub host : String
  pub permission : String
  pub pattern : Bytes
  pub mode : String
  pub created_at : ℕ

pub record Stub : Type 0 where
  pub workspaces : Table Workspace
  pub sessions : Table Session
  pub permissions : Table PermissionRequest
  pub approvals : Table Approval

-- `New`
abbrev pub empty_stub : Stub
empty_stub = record { workspaces = []; sessions = []; permissions = []; approvals = [] }

module _ (st : Stub) where
  abbrev pub get_workspace : String → Option Workspace
  get_workspace id = lookup id st.workspaces

  abbrev pub get_session : String → Option Session
  get_session id = lookup id st.sessions

  abbrev pub get_permission : String → Option PermissionRequest
  get_permission id = lookup id st.permissions

  unfoldable pub list_workspaces : List Workspace
  list_workspaces = values st.workspaces

  unfoldable pub list_sessions : List Session
  list_sessions = values st.sessions

  unfoldable pub list_sessions_by_workspace : String → List Session
  list_sessions_by_workspace id = filter (λ s. s.workspace_id == id) (values st.sessions)

  unfoldable pub list_permissions : List PermissionRequest
  list_permissions = filter (λ p. p.status == "pending") (values st.permissions)

  unfoldable pub list_approvals : String → List Approval
  list_approvals id = filter (λ a. a.workspace_id == id) (values st.approvals)

  -- The map is changed before the file is written; whether that worked is up to the caller.
  abbrev pub create_workspace : Workspace → Stub
  create_workspace ws = record st { workspaces = insert ws.id ws st.workspaces }

  abbrev pub delete_workspace : String → Stub
  delete_workspace id = record st { workspaces = erase id st.workspaces }

  -- `CreateSession` and `UpdateSession`
  abbrev pub create_session : Session → Stub
  create_session se = record st { sessions = insert se.id se st.sessions }

  abbrev pub delete_session : String → Stub
  delete_session id = record st { sessions = erase id st.sessions }

  -- `CreatePermission` and `UpdatePermission`
  abbrev pub create_permission : PermissionRequest → Stub
  create_permission p = record st { permissions = insert p.id p st.permissions }

  abbrev pub create_approval : Approval → Stub
  create_approval a = record st { approvals = insert a.id a st.approvals }

-- An approval of the workspace whose pattern matches the path.
abbrev pub allows : String → Bytes → Approval → Bool
allows workspace_id path a = (a.workspace_id == workspace_id) && match_pattern a.pattern path

unfoldable pub check_approvals : String → Bytes → Table Approval → Option Approval
check_approvals workspace_id path [] = none
check_approvals workspace_id path ((id, a) ∷ rest) =
    let later = check_approvals workspace_id path rest in
    if allows workspace_id path a then some a else later

unfoldable pub check_approval : Stub → String → Bytes → Option Approval
unfolding check_approvals
check_approval st workspace_id path = check_approvals workspace_id path st.approvals

-- The first approval that is met decides; it goes if it was for once.
unfoldable pub consume_approvals :
    String → Bytes → Table Approval → Option Approval × Table Approval
consume_approvals workspace_id path [] = (none, [])
consume_approvals workspace_id path ((id, a) ∷ rest) =
    let (found, others) = consume_approvals workspace_id path rest in
    if allows workspace_id path a
    then (if a.mode == "once" then (some a, rest) else (some a, (id, a) ∷ rest))
    else (found, (id, a) ∷ others)

unfoldable pub consume_approval : Stub → String → Bytes → Option Approval × Stub
unfolding consume_approvals
consume_approval st workspace_id path =
    let (found, left) = consume_approvals workspace_id path st.approvals in
    (found, record st { approvals = left })
