-- ===== src/Tests/Sample.antt =====
-- Two hosts of one provider, and surroundings that answer in a fixed way.
use opencode_remote_ssh.Base.{String, true, none, some, [], ◌∷◌, length}
use opencode_remote_ssh.Types.{
  exclusive, ready, HostConfig, ProviderConfig, LeaseRecord, WorkspaceBinding,
}
use opencode_remote_ssh.Config.{ResolvedPluginConfig, default_tunnel, base_defaults}
use opencode_remote_ssh.Leases.{Leases, grant}
use opencode_remote_ssh.Provider.{HostSelectionRequest}
use opencode_remote_ssh.Effects.{Env}

abbrev pub host_named : String → String → HostConfig
host_named name address = record {
  name = name;
  aliases = some ("db" ∷ []);
  ssh = record {
    host = address;
    user = "ops";
    port = none;
    identity_file = none;
    proxy_jump = none;
  };
  labels = some ("linux" ∷ []);
}

abbrev pub web : HostConfig
web = host_named "web" "10.0.0.1"

abbrev pub mail : HostConfig
mail = host_named "mail" "10.0.0.2"

abbrev pub provider : ProviderConfig
provider = record { strategy = none; labels = some ("linux" ∷ []); hosts = web ∷ mail ∷ [] }

abbrev pub config : ResolvedPluginConfig
config = record {
  install_root = "~/.opencode-remote";
  stub_binary_path = "/stub";
  tunnel = default_tunnel;
  defaults = base_defaults;
  providers = ("default", provider) ∷ [];
}

abbrev pub anywhere : HostSelectionRequest
anywhere = record { provider = "default"; host = none; labels = none }

abbrev pub at_db : HostSelectionRequest
at_db = record { provider = "default"; host = some "db"; labels = none }

-- "web" is leased to the workspace "w1".
abbrev pub web_lease : LeaseRecord
web_lease = grant "web" "w1" exclusive 3

abbrev pub leases : Leases
leases = ("web", web_lease) ∷ []

abbrev pub binding : WorkspaceBinding
binding = record {
  workspace_id = "w1";
  provider = "default";
  host = "web";
  remote_port = 39217;
  local_port = 39500;
  token = "secret";
  lease_mode = exclusive;
  status = ready;
  tunnel_pid = some 77;
  session_id = some "sess_1";
}

-- Every request succeeds, and each step takes a millisecond.
abbrev pub calm : Env
calm = record {
  home = "/home/me";
  process_id = 5;
  clock = length;
  fetch = λ t r. some (record { status = 200; text = "ok"; json = some "{}" });
  execute = λ t program args timeout. some "/root";
  spawn = λ t args. some 4242;
  kill = λ t pid. true;
  exists = λ t path. true;
  make_temp_dir = λ t. some "/tmp/token";
  write_file = λ t path content. true;
  unlink = λ t path. true;
  remove_dir = λ t path. true;
  hash_file = λ t path. some "abc";
  random_hex = λ t. "f00d";
  write_state = λ t file. true;
}

-- No request is answered.
abbrev pub dead : Env
dead = record calm { fetch = λ t r. none }

-- Only requests with a token are answered: the port of a tunnel counts as closed.
abbrev pub quiet : Env
quiet = record calm {
  fetch = λ t r. elim r.token [
    | none ↦ none
    | some _ ↦ some (record { status = 200; text = "ok"; json = some "{}" })
  ];
}
