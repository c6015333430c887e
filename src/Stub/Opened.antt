-- ===== src/Stub/Opened.antt =====
-- A workspace and a session that are made where files can be written
-- (stub/internal/handler/handler.go).
use opencode_remote_ssh.Base.{String, ◌<>◌, ◌≡◌, refl, true, false, some, lookup, arith, is_empty}
use opencode_remote_ssh.Stub.Store.{
  Workspace, Session, Stub, get_workspace, create_workspace, create_session,
}
use opencode_remote_ssh.Stub.Handler.{
  Machine, success, workspace, session, text_of, workspace_post, session_create,
}

module _ (m : Machine) (writes : (path : String) → m.writes path ≡ true) where
  -- The workspace that a body stands for.
  abbrev pub made : Workspace → Workspace
  made given = record given {
    status = "ready";
    created_at = m.clock 0;
    host = text_of (lookup "host" given.extra) given.host;
    provider = text_of (lookup "provider" given.extra) given.provider;
  }

  pub workspace_post-made :
      (given : Workspace) (st : Stub)
      → workspace_post m (some given) st
        ≡ (success (workspace (made given)), create_workspace st (made given))
  unfolding workspace_post
  workspace_post-made given st = rw writes refl

  abbrev pub session_of : String → String → String → Session
  session_of id title workspace_id = record {
    id = id;
    workspace_id = workspace_id;
    title = title;
    directory = m.home;
    status = "idle";
    created_at = m.clock 1;
    updated_at = m.clock 2;
  }

  pub session_create-made :
      (id title workspace_id : String) (ws : Workspace) (st : Stub)
      → is_empty id ≡ false
      → get_workspace st workspace_id ≡ some ws
      → session_create m (some (id, title, workspace_id)) st ≡ (
        success (session (session_of id title workspace_id) ws.project_id),
        create_session st (session_of id title workspace_id),
      )
  unfolding session_create
  session_create-made id title workspace_id ws st named known =
      let written : m.writes ("sessions/" <> id <> ".json") ≡ true =
        writes ("sessions/" <> id <> ".json") in
      ground arith
