-- ===== src/Config/Kept.antt =====
-- Which hosts of a provider `resolveConfig` of plugin/src/config.ts keeps, and in which order.
use opencode_remote_ssh.Base.{
  String, ◌≡◌, refl, ◌≢◌, inl, inr, Option, none, some, List, [], ◌∷◌, Table, lookup, NodupKeys,
  arith, Option-cases, or_default, sym, ◌∙◌, ap, subst,
}
use opencode_remote_ssh.Types.{HostConfig, ProviderConfig}
use opencode_remote_ssh.Config.{
  RawHost, RawProvider, PluginConfig, valid_host, valid_hosts, resolve_config,
}
use opencode_remote_ssh.Config.Providers.{
  IsConnectable, with_hosts, usable, lookup-resolve_config, valid_host-IsConnectable,
}

-- A host as the user would have written it.
abbrev pub raw_of : HostConfig → RawHost
raw_of h = record {
  name = some h.name;
  aliases = h.aliases;
  ssh = some (record {
    host = some h.ssh.host;
    user = some h.ssh.user;
    port = h.ssh.port;
    identity_file = h.ssh.identity_file;
    proxy_jump = h.ssh.proxy_jump;
  });
  labels = h.labels;
}

-- The hosts that stay of those that were written: the connectable ones, unchanged and in their
-- order, and no others.
pub data Kept : List RawHost → List HostConfig → Type 0 where
  nil : Kept [] []
  keep :
      (h : HostConfig) (rs : List RawHost) (hs : List HostConfig)
      → IsConnectable h
      → Kept rs hs
      → Kept (raw_of h ∷ rs) (h ∷ hs)
  drop :
      (r : RawHost) (rs : List RawHost) (hs : List HostConfig)
      → ((h : HostConfig) → IsConnectable h → r ≢ raw_of h)
      → Kept rs hs
      → Kept (r ∷ rs) hs

valid_host-raw : (r : RawHost) (h : HostConfig) → valid_host r ≡ some h → r ≡ raw_of h
unfolding valid_host
valid_host-raw r h e = ground arith

raw-valid_host : (h : HostConfig) → IsConnectable h → valid_host (raw_of h) ≡ some h
unfolding valid_host
raw-valid_host h c = ground arith

dropped_none : (r : RawHost) (h : HostConfig) → valid_host r ≡ none → valid_host r ≢ some h
dropped_none r h dropped kept = cc

valid_hosts-Kept : (rs : List RawHost) → Kept rs (valid_hosts rs)
unfolding valid_hosts
valid_hosts-Kept [] = nil
valid_hosts-Kept (r ∷ rs) = elim (Option-cases (valid_host r)) [
  | inl dropped ↦
      rw (dropped, valid_hosts)
        (drop r rs (valid_hosts rs)
          (λ h c e. dropped_none r h dropped (ap valid_host e ∙ raw-valid_host h c))
          (valid_hosts-Kept rs))
  | inr (h, kept) ↦
      rw (kept, valid_hosts)
        (subst (λ q. Kept (q ∷ rs) (h ∷ valid_hosts rs)) (sym (valid_host-raw r h kept))
          (keep h rs (valid_hosts rs) (valid_host-IsConnectable r h kept) (valid_hosts-Kept rs)))
]

-- What a provider becomes: one that is not there or of which no host stays is left out, and of another
-- the strategy and the labels stay.
abbrev pub Resolves : Option RawProvider → Option ProviderConfig → Type 0
Resolves none q = q ≡ none
Resolves (some p) none = Kept (or_default p.hosts []) []
Resolves (some p) (some q) =
    (q.strategy ≡ p.strategy)
    × (q.labels ≡ p.labels)
    × (q.hosts ≢ [])
    × Kept (or_default p.hosts []) q.hosts

with_hosts-Resolves :
    (p : RawProvider) (hs : List HostConfig)
    → Kept (or_default p.hosts []) hs
    → Resolves (some p) (with_hosts p hs)
unfolding with_hosts
with_hosts-Resolves p [] k = k
with_hosts-Resolves p (h ∷ hs) k = (refl, refl, (λ e. cc), k)

usable-Resolves : (p : Option RawProvider) → Resolves p (elim p [ none ↦ none | some p ↦ usable p ])
unfolding usable
usable-Resolves none = refl
usable-Resolves (some p) = with_hosts-Resolves p (valid_hosts _) (valid_hosts-Kept _)

module _ (resolve_path : String → String) (default_stub_binary : String) where
  -- Where the input has providers, each name once: a resolved configuration has a provider under a
  -- name if and only if the input has one there with a connectable host, and it has its strategy,
  -- its labels and exactly its connectable hosts, unchanged and in their order.
  pub resolve_config-Resolves :
      (input : PluginConfig) (ps : Table RawProvider) (name : String)
      → input.providers ≡ some ps
      → NodupKeys ps
      → Resolves
          (lookup name ps)
          (lookup name (resolve_config resolve_path default_stub_binary (some input)).providers)
  resolve_config-Resolves input ps name given u =
      subst (Resolves (lookup name ps))
        (sym (lookup-resolve_config resolve_path default_stub_binary input ps name given u))
        (usable-Resolves (lookup name ps))
