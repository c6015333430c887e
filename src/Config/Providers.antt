-- ===== src/Config/Providers.antt =====
-- The providers and hosts that `resolveConfig` of plugin/src/config.ts lets through.
use opencode_remote_ssh.Base.{
  String, ◌≡◌, refl, ◌≢◌, inl, inr, Option, none, some, List, [], ◌∷◌, Table, lookup, lookup-insert,
  NodupKeys, All, if◌then◌else◌, ◌==◌, arith, Option-cases, or_default, sym, ◌∙◌,
}
use opencode_remote_ssh.Types.{HostConfig, ProviderConfig}
use opencode_remote_ssh.Config.{
  RawHost, RawProvider, PluginConfig, valid_host, valid_hosts, store_valid, store_hosts,
  valid_providers, resolve_given, resolve_config,
}

-- A host that the plugin can connect to.
pub record IsConnectable (h : HostConfig) : Type 0 where
  pub named : h.name ≢ ""
  pub addressed : h.ssh.host ≢ ""
  pub with_user : h.ssh.user ≢ ""

-- What is left of a provider: the connectable hosts in their order, if there is one.
unfoldable pub with_hosts : RawProvider → List HostConfig → Option ProviderConfig
with_hosts p [] = none
with_hosts p (h ∷ hs) = some (record { strategy = p.strategy; labels = p.labels; hosts = h ∷ hs })

unfoldable pub usable : RawProvider → Option ProviderConfig
unfolding with_hosts
usable p = with_hosts p (valid_hosts (or_default p.hosts []))

pub valid_host-IsConnectable :
    (r : RawHost) (h : HostConfig) → valid_host r ≡ some h → IsConnectable h
unfolding valid_host
valid_host-IsConnectable r h e = ground arith

with_hosts-IsConnectable :
    (p : RawProvider) (q : ProviderConfig) (hs : List HostConfig)
    → with_hosts p hs ≡ some q
    → All IsConnectable hs
    → (q.hosts ≢ []) × All IsConnectable q.hosts
unfolding with_hosts
with_hosts-IsConnectable p q [] e a = cc
with_hosts-IsConnectable p q (h ∷ hs) e a =
    let same : h ∷ hs ≡ q.hosts = ground arith in rw (← same) (λ empty. cc, a)

valid_hosts-IsConnectable : (rs : List RawHost) → All IsConnectable (valid_hosts rs)
unfolding valid_hosts
valid_hosts-IsConnectable [] = tt
valid_hosts-IsConnectable (r ∷ rs) = elim (Option-cases (valid_host r)) [
  | inl dropped ↦ rw (dropped, valid_hosts) (valid_hosts-IsConnectable rs)
  | inr (h, kept) ↦
      rw (kept, valid_hosts) (valid_host-IsConnectable r h kept, valid_hosts-IsConnectable rs)
]

-- `found` if there is one, else `old`.
abbrev or_old {ℓ} : {A : Type ℓ} → Option A → Option A → Option A
or_old none old = old
or_old (some a) old = some a

abbrev when_key : String → String → Option ProviderConfig → Option ProviderConfig
when_key m n q = if m == n then q else none

lookup-store_valid :
    (m n : String) (p : RawProvider) (hosts : List HostConfig) (valid : Table ProviderConfig)
    → lookup m (store_valid hosts n p valid)
      ≡ or_old (when_key m n (with_hosts p hosts)) (lookup m valid)
unfolding store_valid with_hosts
lookup-store_valid m n p [] valid = ground arith
lookup-store_valid m n p (h ∷ hs) valid = ground (
  arith,
  lookup-insert m n (record { strategy = p.strategy; labels = p.labels; hosts = h ∷ hs }) valid,
)

lookup-store_hosts :
    (m n : String) (p : RawProvider) (hosts : Option (List RawHost)) (valid : Table ProviderConfig)
    → lookup m (store_hosts hosts n p valid)
      ≡ or_old (when_key m n (with_hosts p (valid_hosts (or_default hosts [])))) (lookup m valid)
unfolding store_hosts valid_hosts store_valid
lookup-store_hosts m n p none valid = lookup-store_valid m n p [] valid
lookup-store_hosts m n p (some []) valid = lookup-store_valid m n p [] valid
lookup-store_hosts m n p (some (h ∷ hs)) valid =
    lookup-store_valid m n p (valid_hosts (h ∷ hs)) valid

-- What the input says of a name: its provider, if that has a connectable host.
abbrev pub usable_under : String → Table RawProvider → Option ProviderConfig
usable_under name ps = elim (lookup name ps) [ none ↦ none | some p ↦ usable p ]

lookup-valid_providers :
    (name : String) (ps : Table RawProvider) (valid : Table ProviderConfig)
    → NodupKeys ps
    → lookup name (valid_providers ps valid) ≡ or_old (usable_under name ps) (lookup name valid)
unfolding valid_providers lookup usable
lookup-valid_providers name [] valid u = refl
lookup-valid_providers name ((n, p) ∷ ps) valid u = ground (
  arith,
  lookup-valid_providers name ps (store_hosts p.hosts n p valid) u.1,
  lookup-store_hosts name n p p.hosts valid,
)

module _ (resolve_path : String → String) (default_stub_binary : String) where
  -- Where the input has providers, each name once, a resolved configuration has under each name the provider that the input has there with its
  -- connectable hosts in their order, and nothing where the input has none or none such.
  pub lookup-resolve_config :
      (input : PluginConfig) (ps : Table RawProvider) (name : String)
      → input.providers ≡ some ps
      → NodupKeys ps
      → lookup name (resolve_config resolve_path default_stub_binary (some input)).providers
        ≡ usable_under name ps
  unfolding resolve_config lookup
  lookup-resolve_config input [] name given u = rw (given, resolve_given)
  lookup-resolve_config input (p ∷ ps) name given u =
      rw (given, resolve_given) (ground (arith, lookup-valid_providers name (p ∷ ps) [] u))

usable-IsConnectable :
    (p : RawProvider) (q : ProviderConfig)
    → usable p ≡ some q
    → (q.hosts ≢ []) × All IsConnectable q.hosts
unfolding usable
usable-IsConnectable p q e =
    with_hosts-IsConnectable p q (valid_hosts _) e (valid_hosts-IsConnectable _)

usable_under-IsConnectable :
    (name : String) (ps : Table RawProvider) (q : ProviderConfig)
    → usable_under name ps ≡ some q
    → (q.hosts ≢ []) × All IsConnectable q.hosts
usable_under-IsConnectable name ps q e = elim (Option-cases (lookup name ps)) [
  | inl missing ↦ ground arith
  | inr (p, found) ↦ usable-IsConnectable p q (ground arith)
]

module _ (resolve_path : String → String) (default_stub_binary : String) where
  -- Where the input has providers, each name once, every provider of the resolved configuration has a host, and each of its hosts has a name, an
  -- address and a user that are not empty.
  pub resolve_config-IsConnectable :
      (input : PluginConfig) (ps : Table RawProvider) (name : String) (q : ProviderConfig)
      → input.providers ≡ some ps
      → NodupKeys ps
      → lookup name (resolve_config resolve_path default_stub_binary (some input)).providers
        ≡ some q
      → (q.hosts ≢ []) × All IsConnectable q.hosts
  resolve_config-IsConnectable input ps name q given u e =
      usable_under-IsConnectable name ps q
        (sym (lookup-resolve_config resolve_path default_stub_binary input ps name given u) ∙ e)
