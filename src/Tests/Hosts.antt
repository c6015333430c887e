-- ===== src/Tests/Hosts.antt =====
-- Configuration and host selection (plugin/src/config.ts and provider.ts).
use text.Mathlib.TextEquality.{eq_iff}
use opencode_remote_ssh.Base.{
  ◌≡◌, refl, ◌≢◌, ◌↔◌, ◌⊎◌, true, some, none, [], ◌∷◌, lookup, string_dec, insert, arith, String,
  In, Table, All, NodupKeys, or_default, contains,
}
use opencode_remote_ssh.Types.{HostConfig, ProviderConfig}
use opencode_remote_ssh.Config.{
  RawHost, RawProvider, PluginConfig, valid_host, valid_hosts, resolve_config,
}
use opencode_remote_ssh.Config.Providers.{IsConnectable, resolve_config-IsConnectable}
use opencode_remote_ssh.Leases
use opencode_remote_ssh.Config.Kept.{Kept, resolve_config-Resolves}
use opencode_remote_ssh.Provider.{candidates, is_free, is_held_by, resolve_with_lease}
use opencode_remote_ssh.Provider.Candidates.{Covers, candidates-labels, candidates-named}
use opencode_remote_ssh.Provider.Exclusive.{Settled, resolve_with_lease-Settled}
use opencode_remote_ssh.Provider.Availability.{
  is_ok, resolve_with_lease-is_ok, resolve_with_lease_again,
}
use opencode_remote_ssh.Tests.Sample.{web, mail, provider, config, anywhere, at_db, leases}

w2_named : ◌≢◌ {A = String} "w2" ""
w2_named = ground (arith, eq_iff "w2" "")

resolve_with_lease-Settled_example :
    Settled config refl leases provider at_db "w2"
      (resolve_with_lease config leases at_db (some "w2") 9)
unfolding lookup string_dec
resolve_with_lease-Settled_example =
    resolve_with_lease-Settled config refl leases at_db "w2" 9 provider w2_named refl

resolve_with_lease-is_ok_example :
    is_ok (resolve_with_lease config leases at_db (some "w2") 9).0 ≡ true
unfolding lookup string_dec is_held_by is_free candidates Leases.get
resolve_with_lease-is_ok_example = resolve_with_lease-is_ok config refl leases at_db "w2" 9 w2_named

resolve_with_lease_again_example :
    resolve_with_lease config
      (resolve_with_lease config leases at_db (some "w2") 9).1
      at_db
      (some "w2")
      12
    ≡ resolve_with_lease config leases at_db (some "w2") 9
resolve_with_lease_again_example =
    resolve_with_lease_again config refl leases at_db "w2" 9 12 w2_named

candidates-labels_example :
    In mail (candidates provider anywhere)
    ↔ (In mail provider.hosts × Covers ("linux" ∷ []) ("linux" ∷ []))
candidates-labels_example = candidates-labels provider anywhere mail refl

candidates-named_example : In mail (candidates provider at_db) ↔ (
    In mail provider.hosts
    × ((mail.name ≡ "db")
        ⊎ (mail.ssh.host ≡ "db")
        ⊎ (contains (or_default mail.aliases []) "db" ≡ true)))
unfolding string_dec
candidates-named_example = candidates-named provider at_db mail "db" refl

abbrev raw_web : RawHost
raw_web = record {
  name = some "web";
  aliases = none;
  ssh = some (record {
    host = some "10.0.0.1";
    user = some "ops";
    port = none;
    identity_file = none;
    proxy_jump = none;
  });
  labels = none;
}

abbrev nameless : RawHost
nameless = record { name = some ""; aliases = none; ssh = none; labels = none }

abbrev raw_providers : Table RawProvider
raw_providers =
    ("default", record { strategy = none; labels = none; hosts = some (nameless ∷ raw_web ∷ []) })
    ∷ ("empty", record { strategy = none; labels = none; hosts = some (nameless ∷ []) })
    ∷ []

abbrev input : PluginConfig
input = record {
  install_root = none;
  stub_binary_path = none;
  tunnel = none;
  defaults = none;
  providers = some raw_providers;
}

raw_single : NodupKeys raw_providers
unfolding lookup string_dec
raw_single = (refl, (refl, tt))

abbrev same_path : String → String
same_path p = p

abbrev checked_web : HostConfig
checked_web = record web { aliases = none; labels = none }

abbrev checked_provider : ProviderConfig
checked_provider = record { strategy = none; labels = none; hosts = checked_web ∷ [] }

resolve_config-Resolves_example :
    (checked_provider.strategy ≡ none)
    × (checked_provider.labels ≡ none)
    × (checked_provider.hosts ≢ [])
    × Kept (nameless ∷ raw_web ∷ []) (checked_web ∷ [])
unfolding lookup resolve_config valid_hosts valid_host string_dec insert
resolve_config-Resolves_example =
    resolve_config-Resolves same_path "/stub" input raw_providers "default" refl raw_single

resolve_config-IsConnectable_example :
    (checked_provider.hosts ≢ []) × All IsConnectable checked_provider.hosts
unfolding resolve_config lookup string_dec valid_hosts valid_host insert
resolve_config-IsConnectable_example =
    resolve_config-IsConnectable same_path "/stub" input raw_providers "default" checked_provider
      refl raw_single refl
