-- ===== src/Config.antt =====
-- plugin/src/config.ts: `resolveConfig`. The input is what the user wrote, so whatever the code
-- tests for is optional here. `resolve` of node:path and the path of the bundled stub are arguments.
pub mod Providers
pub mod Kept
use opencode_remote_ssh.Base.{
  ℕ, String, Option, none, some, List, [], ◌∷◌, Table, insert, or_default, truthy,
}
use opencode_remote_ssh.Types.{
  SelectionStrategy, first_available, LeaseMode, exclusive, SshConfig, HostConfig, ProviderConfig,
}

pub record RawSsh : Type 0 where
  pub host : Option String
  pub user : Option String
  pub port : Option ℕ
  pub identity_file : Option String
  pub proxy_jump : Option String

pub record RawHost : Type 0 where
  pub name : Option String
  pub aliases : Option (List String)
  pub ssh : Option RawSsh
  pub labels : Option (List String)

pub record RawProvider : Type 0 where
  pub strategy : Option SelectionStrategy
  pub labels : Option (List String)
  pub hosts : Option (List RawHost)

pub record TunnelInput : Type 0 where
  pub local_port_range : Option (ℕ × ℕ)
  pub connect_timeout_ms : Option ℕ
  pub health_timeout_ms : Option ℕ

pub record DefaultsInput : Type 0 where
  pub selection_strategy : Option SelectionStrategy
  pub lease_mode : Option LeaseMode
  pub stub_port : Option ℕ

pub record PluginConfig : Type 0 where
  pub install_root : Option String
  pub stub_binary_path : Option String
  pub tunnel : Option TunnelInput
  pub defaults : Option DefaultsInput
  pub providers : Option (Table RawProvider)

pub record TunnelConfig : Type 0 where
  pub local_port_range : ℕ × ℕ
  pub connect_timeout_ms : ℕ
  pub health_timeout_ms : ℕ

pub record DefaultsConfig : Type 0 where
  pub selection_strategy : SelectionStrategy
  pub lease_mode : LeaseMode
  pub stub_port : ℕ

pub record ResolvedPluginConfig : Type 0 where
  pub install_root : String
  pub stub_binary_path : String
  pub tunnel : TunnelConfig
  pub defaults : DefaultsConfig
  pub providers : Table ProviderConfig

-- `DEFAULT_TUNNEL` and `DEFAULTS`
abbrev pub default_tunnel : TunnelConfig
default_tunnel = record {
  local_port_range = (39000, 39999);
  connect_timeout_ms = 15000;
  health_timeout_ms = 5000;
}

abbrev pub base_defaults : DefaultsConfig
base_defaults = record {
  selection_strategy = first_available;
  lease_mode = exclusive;
  stub_port = 39217;
}

infixl 5 ◌>>=◌
abbrev ◌>>=◌ : {A B : Type 0} → Option A → (A → Option B) → Option B
none >>= f = none
some a >>= f = f a

-- `h.name && h.ssh?.host && h.ssh?.user`: a host that passes has these three.
unfoldable pub valid_host : RawHost → Option HostConfig
valid_host h = do
  name ← truthy h.name
  ssh ← h.ssh
  host ← truthy ssh.host
  user ← truthy ssh.user
  some (record {
    name = name;
    aliases = h.aliases;
    ssh = record {
      host = host;
      user = user;
      port = ssh.port;
      identity_file = ssh.identity_file;
      proxy_jump = ssh.proxy_jump;
    };
    labels = h.labels;
  })

-- `provider.hosts.filter(…)`
unfoldable pub valid_hosts : List RawHost → List HostConfig
valid_hosts [] = []
valid_hosts (h ∷ hs) =
    let rest = valid_hosts hs in elim (valid_host h) [ none ↦ rest | some host ↦ host ∷ rest ]

-- `if (validHosts.length > 0) validProviders[providerName] = { ...provider, hosts: validHosts }`
store_valid : List HostConfig → String → RawProvider → Table ProviderConfig → Table ProviderConfig
store_valid [] name p valid = valid
store_valid (h ∷ hs) name p valid =
    insert name (record { strategy = p.strategy; labels = p.labels; hosts = h ∷ hs }) valid

-- `if (provider.hosts && provider.hosts.length > 0)`
store_hosts :
    Option (List RawHost) → String → RawProvider → Table ProviderConfig → Table ProviderConfig
store_hosts none name p valid = valid
store_hosts (some []) name p valid = valid
store_hosts (some (h ∷ hs)) name p valid = store_valid (valid_hosts (h ∷ hs)) name p valid

-- The loop over `Object.entries(input.providers)`.
unfoldable pub valid_providers : Table RawProvider → Table ProviderConfig → Table ProviderConfig
unfolding store_hosts store_valid
valid_providers [] valid = valid
valid_providers ((name, p) ∷ rest) valid = valid_providers rest (store_hosts p.hosts name p valid)

-- `{ ...DEFAULT_TUNNEL, ...input.tunnel }`
unfoldable pub merge_tunnel : Option TunnelInput → TunnelConfig
merge_tunnel none = default_tunnel
merge_tunnel (some t) = record {
  local_port_range = or_default t.local_port_range default_tunnel.local_port_range;
  connect_timeout_ms = or_default t.connect_timeout_ms default_tunnel.connect_timeout_ms;
  health_timeout_ms = or_default t.health_timeout_ms default_tunnel.health_timeout_ms;
}

-- `{ ...DEFAULTS, ...input.defaults }`
unfoldable pub merge_defaults : Option DefaultsInput → DefaultsConfig
merge_defaults none = base_defaults
merge_defaults (some d) = record {
  selection_strategy = or_default d.selection_strategy base_defaults.selection_strategy;
  lease_mode = or_default d.lease_mode base_defaults.lease_mode;
  stub_port = or_default d.stub_port base_defaults.stub_port;
}

module _ (resolve_path : String → String) (default_stub_binary : String) where
  -- What is returned when there is no input, or no provider in it.
  abbrev pub empty_config : ResolvedPluginConfig
  empty_config = record {
    install_root = "~/.opencode-remote";
    stub_binary_path = default_stub_binary;
    tunnel = default_tunnel;
    defaults = base_defaults;
    providers = [];
  }

  -- `input.stubBinaryPath ? resolve(input.stubBinaryPath) : DEFAULT_STUB_BINARY`
  stub_path : Option String → String
  stub_path path = elim (truthy path) [ none ↦ default_stub_binary | some p ↦ resolve_path p ]

  merge_config : PluginConfig → Table RawProvider → ResolvedPluginConfig
  unfolding stub_path merge_tunnel merge_defaults valid_providers
  merge_config input providers = record {
    install_root = or_default input.install_root "~/.opencode-remote";
    stub_binary_path = stub_path input.stub_binary_path;
    tunnel = merge_tunnel input.tunnel;
    defaults = merge_defaults input.defaults;
    providers = valid_providers providers [];
  }

  resolve_given : Option (Table RawProvider) → PluginConfig → ResolvedPluginConfig
  unfolding merge_config
  resolve_given none input = empty_config
  resolve_given (some []) input = empty_config
  resolve_given (some (p ∷ ps)) input = merge_config input (p ∷ ps)

  unfoldable pub resolve_config : Option PluginConfig → ResolvedPluginConfig
  unfolding resolve_given
  resolve_config none = empty_config
  resolve_config (some input) = resolve_given input.providers input
