-- ===== src/Plugin/Remote.antt =====
-- plugin/src/index.ts: the requests to the stub behind a binding's tunnel.
use opencode_remote_ssh.Base.{String, ◌<>◌, none, some, if◌then◌else◌, truthy, show_nat}
use opencode_remote_ssh.Types.{WorkspaceBinding, session_create_failed, workspace_create_failed}
use opencode_remote_ssh.Effects.{
  Env, Io, Method, Request, Payload, is_success, fetch, read_clock, pure, throw, try_catch, ◌>>=◌,
  ◌>>◌,
}
use opencode_remote_ssh.Ssh.Probe.{local_url}

module _ (env : Env) where
  -- The default title of `createRemoteSession`, which no caller overrides.
  unfoldable pub create_remote_session : WorkspaceBinding → Io String
  create_remote_session b = do
    now ← read_clock env
    let session_id = "sess_" <> show_nat now
    response ← fetch env (record {
      method = Method.post;
      url = local_url b.local_port "/session";
      token = some b.token;
      payload = some (Payload.session session_id "Remote Session" b.workspace_id);
    })
    if is_success response
        then pure session_id
        else throw (session_create_failed response.status response.text)

  unfoldable pub create_remote_workspace : WorkspaceBinding → Io (Unit {0})
  create_remote_workspace b = do
    response ← fetch env (record {
      method = Method.post;
      url = local_url b.local_port "/experimental/workspace";
      token = some b.token;
      payload = some (Payload.workspace b.workspace_id "Remote Workspace" b.provider b.host);
    })
    if is_success response
        then pure tt
        else throw (workspace_create_failed response.status response.text)

  abbrev delete_request : WorkspaceBinding → String → Request
  delete_request b path = record {
    method = Method.delete;
    url = local_url b.local_port path;
    token = some b.token;
    payload = none;
  }

  -- Best effort: a request that fails is passed over, whatever the answer is.
  delete_quietly : WorkspaceBinding → String → Io (Unit {0})
  delete_quietly b path = try_catch (do fetch env (delete_request b path); pure tt) (λ _. pure tt)

  unfoldable pub remove_remote_workspace : WorkspaceBinding → Io (Unit {0})
  unfolding delete_quietly
  remove_remote_workspace b = do
    elim (truthy b.session_id) [
      | none ↦ pure tt
      | some session ↦ delete_quietly b ("/session/" <> session)
    ]
    delete_quietly b ("/experimental/workspace/" <> b.workspace_id)
