-- ===== src/Plugin/Adapter.antt =====
-- plugin/src/index.ts: the workspace adapter, `sshProviderAdaptor`.
use opencode_remote_ssh.Base.{
  String, ◌<>◌, Option, none, some, List, [], ◌∷◌, Table, lookup, insert, truthy, or_default,
}
use opencode_remote_ssh.Types.{
  ResolvedHost, WorkspaceInfo, WorkspaceTarget, ExtraValue, text, array, provider_not_configured,
  not_active, Result, ok, err,
}
use opencode_remote_ssh.Config.{ResolvedPluginConfig}
use opencode_remote_ssh.Provider.{HostSelectionRequest}
use opencode_remote_ssh.Effects.{Env}
use opencode_remote_ssh.Ssh.Bootstrap.{bootstrap}
use opencode_remote_ssh.Ssh.Probe.{local_url}
use opencode_remote_ssh.Plugin.{
  Action, pure, throw, lift, ◌>>=◌, get_binding, set_binding, acquire_resolved,
}
use opencode_remote_ssh.Plugin.Connect.{new_binding, or_release, remove_binding, get_ready_binding}

-- A member of `extra`, if it is there and a text.
abbrev pub text_member : String → Table ExtraValue → Option String
text_member key extra = elim (lookup key extra) [ some (text s) ↦ some s | _ ↦ none ]

unfoldable pub texts : List (Option String) → List String
texts [] = []
texts (none ∷ xs) = texts xs
texts (some s ∷ xs) = s ∷ texts xs

abbrev pub labels_member : Table ExtraValue → Option (List String)
labels_member extra = elim (lookup "labels" extra) [ some (array xs) ↦ some (texts xs) | _ ↦ none ]

unfoldable pub request_for_extra : Table ExtraValue → Result HostSelectionRequest
unfolding texts
request_for_extra extra = elim (text_member "provider" extra) [
  | none ↦ err provider_not_configured
  | some provider ↦ ok (record {
    provider = provider;
    host = text_member "host" extra;
    labels = labels_member extra;
  })
]

unfoldable pub provider_request_for_workspace : WorkspaceInfo → Result HostSelectionRequest
unfolding request_for_extra
provider_request_for_workspace workspace = elim workspace.extra [
  | none ↦ err provider_not_configured
  | some extra ↦ request_for_extra extra
]

abbrev pub from_result : {A : Type 0} → Result A → Action A
from_result r p = (r, p)

module _ (env : Env) (config : ResolvedPluginConfig) where
  unfoldable pub resolve_provider : WorkspaceInfo → Action ResolvedHost
  unfolding provider_request_for_workspace
  resolve_provider workspace = do
    request ← from_result (provider_request_for_workspace workspace)
    acquire_resolved env config request workspace.id

  -- `{ ...(workspace.extra ?? {}), provider, host }` and the defaults for type and name.
  unfoldable pub with_selection : WorkspaceInfo → ResolvedHost → WorkspaceInfo
  with_selection workspace selection = record workspace {
    type = or_default (truthy (some workspace.type)) "ssh-provider";
    name = some (or_default workspace.name selection.host.name);
    extra = some (
        insert "host" (text selection.host.name)
          (insert "provider" (text selection.provider) (or_default workspace.extra [])));
  }

  unfoldable pub configure_workspace : WorkspaceInfo → Action WorkspaceInfo
  unfolding resolve_provider with_selection
  configure_workspace workspace = do
    selection ← resolve_provider workspace
    pure (with_selection workspace selection)

  -- Bootstrap and binding under the lease that was just acquired, which goes if either throws.
  unfoldable pub bind_selected : String → ResolvedHost → Action (Unit {0})
  bind_selected workspace_id selection = or_release env config selection workspace_id (do
    boot ← lift (bootstrap env config workspace_id selection)
    set_binding env (new_binding env config workspace_id selection boot))

  unfoldable pub create_workspace : WorkspaceInfo → Action (Unit {0})
  unfolding resolve_provider bind_selected
  create_workspace workspace = do
    selection ← resolve_provider workspace
    bind_selected workspace.id selection

  unfoldable pub remove_workspace : WorkspaceInfo → Action (Unit {0})
  remove_workspace workspace = do
    found ← get_binding workspace.id
    elim found [ none ↦ pure tt | some b ↦ remove_binding env b ]

  unfoldable pub get_target : WorkspaceInfo → Action WorkspaceTarget
  get_target workspace = do
    found ← get_ready_binding env config workspace.id
    elim found [
      | none ↦ throw (not_active workspace.id)
      | some b ↦
          pure (record { url = local_url b.local_port ""; authorization = "Bearer " <> b.token })
    ]
