-- ===== src/Types.antt =====
-- plugin/src/types.ts, and the errors that the plugin throws.
pub mod Messages
use opencode_remote_ssh.Base.{ℕ, String, Option, List}

pub data SelectionStrategy : Type 0 where
  first_available : SelectionStrategy

pub data LeaseMode : Type 0 where
  exclusive shared : LeaseMode

pub record SshConfig : Type 0 where
  pub host : String
  pub user : String
  pub port : Option ℕ
  pub identity_file : Option String
  pub proxy_jump : Option String

pub record HostConfig : Type 0 where
  pub name : String
  pub aliases : Option (List String)
  pub ssh : SshConfig
  pub labels : Option (List String)

pub record ProviderConfig : Type 0 where
  pub strategy : Option SelectionStrategy
  pub labels : Option (List String)
  pub hosts : List HostConfig

pub record ResolvedHost : Type 0 where
  pub provider : String
  pub host : HostConfig
  pub labels : List String
  pub strategy : SelectionStrategy

pub record LeaseRecord : Type 0 where
  pub host : String
  pub workspace_id : String
  pub mode : LeaseMode
  pub acquired_at : ℕ

pub data Status : Type 0 where
  creating ready failed removed : Status

pub record WorkspaceBinding : Type 0 where
  pub workspace_id : String
  pub provider : String
  pub host : String
  pub remote_port : ℕ
  pub local_port : ℕ
  pub token : String
  pub lease_mode : LeaseMode
  pub status : Status
  pub tunnel_pid : Option ℕ
  pub session_id : Option String

-- `extra` holds JSON values: a text, a list with its texts in order (`none` for an element that is
-- no text), or anything else.
pub data ExtraValue : Type 0 where
  text : String → ExtraValue
  array : List (Option String) → ExtraValue
  other : ExtraValue

pub record WorkspaceInfo : Type 0 where
  pub id : String
  pub type : String
  pub name : Option String
  pub extra : Option (List (String × ExtraValue))

pub record WorkspaceTarget : Type 0 where
  pub url : String
  pub authorization : String

-- One constructor for each `throw` of the source, with the values that its message shows.
-- `external` is an error that Node or the operating system raises.
pub data Error : Type 0 where
  leased_by : String → String → Error
  unknown_provider : String → Error
  host_not_found : String → String → Error
  no_available_host : String → Error
  already_leased : String → Error
  provider_not_configured : Error
  not_active : String → Error
  no_providers : Error
  no_workspace_api : Error
  stub_not_found : String → Error
  no_remote_home : String → String → Error
  no_local_port : ℕ → ℕ → Error
  tunnel_untracked : ℕ → Error
  recovered_untracked : ℕ → Error
  not_healthy : ℕ → Error
  not_reachable : ℕ → Error
  not_closed : ℕ → Error
  session_create_failed : ℕ → String → Error
  workspace_create_failed : ℕ → String → Error
  health_check_failed : ℕ → String → Error
  unknown_argument no_plugin_entry no_stub : String → Error
  request_failed : String → ℕ → String → Error
  shell_failed : ℕ → String → Error
  permission_missing : String → Error
  external : String → Error
  out_of_fuel : Error

pub data Result {ℓ} (A : Type ℓ) : Type ℓ where
  ok : A → Result A
  err : Error → Result A
