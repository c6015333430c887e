-- ===== src/Provider.antt =====
-- plugin/src/provider.ts: `ProviderRegistry`. A method takes the lease map and returns the new one;
-- `now` is what `Date.now()` reads when a lease is taken.
pub mod Candidates
pub mod Exclusive
pub mod Availability
pub mod Failure
pub mod Held
pub mod Acquire
use opencode_remote_ssh.Base.{
  ℕ, String, Bool, true, false, ◌||◌, Option, none, some, List, [], ◌∷◌, ◌++◌, lookup, filter, find,
  all, contains, to_set, if◌then◌else◌, ◌==◌, truthy, or_default,
}
use opencode_remote_ssh.Types.{
  SelectionStrategy, HostConfig, ProviderConfig, ResolvedHost, LeaseRecord, Error, unknown_provider,
  host_not_found, no_available_host, already_leased, Result, ok, err,
}
use opencode_remote_ssh.Config.{ResolvedPluginConfig}
use opencode_remote_ssh.Leases
use opencode_remote_ssh.Leases.{Leases}

pub record HostSelectionRequest : Type 0 where
  pub provider : String
  pub host : Option String
  pub labels : Option (List String)

-- What `resolveWithLease` returns.
pub record Selected : Type 0 where
  pub selection : ResolvedHost
  pub lease : Option LeaseRecord

unfoldable pub matches_labels : HostConfig → List String → Bool
matches_labels host labels =
    let host_labels = to_set (or_default host.labels []) in all (contains host_labels) labels

-- The test of an explicit request: by name, by address or by alias.
unfoldable pub names_host : String → HostConfig → Bool
names_host requested item =
    item.name == requested
    || item.ssh.host == requested
    || contains (or_default item.aliases []) requested

unfoldable pub to_resolved : String → List String → HostConfig → SelectionStrategy → ResolvedHost
to_resolved provider labels host strategy = record {
  provider = provider;
  host = host;
  labels = or_default host.labels labels;
  strategy = strategy;
}

unfoldable pub required_labels : ProviderConfig → HostSelectionRequest → List String
required_labels provider request =
    to_set (or_default provider.labels [] ++ or_default request.labels [])

unfoldable pub candidates : ProviderConfig → HostSelectionRequest → List HostConfig
unfolding names_host matches_labels required_labels
candidates provider request = elim (truthy request.host) [
  | some requested ↦ filter (names_host requested) provider.hosts
  | none ↦
      filter (λ candidate. matches_labels candidate (required_labels provider request))
        provider.hosts
]

-- The errors for an empty list of candidates, and for one in which no host could be leased.
unfoldable pub no_candidate : HostSelectionRequest → Error
no_candidate request = elim (truthy request.host) [
  | some host ↦ host_not_found host request.provider
  | none ↦ no_available_host request.provider
]

unfoldable pub all_leased : HostSelectionRequest → Error
all_leased request = elim (truthy request.host) [
  | some host ↦ already_leased host
  | none ↦ no_available_host request.provider
]

-- `!this.leases.get(candidate.name)`
unfoldable pub is_free : Leases → HostConfig → Bool
is_free leases c = elim (Leases.get leases c.name) [ none ↦ true | some _ ↦ false ]

-- `this.leases.get(candidate.name)?.workspaceID === workspaceID`
unfoldable pub is_held_by : Leases → String → HostConfig → Bool
is_held_by leases workspace_id c = elim (Leases.get leases c.name) [
  | none ↦ false
  | some l ↦ l.workspace_id == workspace_id
]

module _ (config : ResolvedPluginConfig) where
  -- The loop that tries to acquire each candidate; an error goes on to the next one.
  unfoldable pub acquire_first :
      Leases → List HostConfig → String → ℕ → Option (HostConfig × LeaseRecord) × Leases
  acquire_first leases [] workspace_id now = (none, leases)
  acquire_first leases (host ∷ rest) workspace_id now =
      let (result, leases') =
        Leases.acquire leases host.name workspace_id config.defaults.lease_mode now in
      let others = acquire_first leases' rest workspace_id now in
      elim result [ ok lease ↦ (some (host, lease), leases') | err _ ↦ others ]

  unfoldable pub strategy_of : ProviderConfig → SelectionStrategy
  strategy_of provider = or_default provider.strategy config.defaults.selection_strategy

  unfoldable pub select : ProviderConfig → HostSelectionRequest → HostConfig → ResolvedHost
  unfolding to_resolved required_labels strategy_of
  select provider request host =
      to_resolved request.provider (required_labels provider request) host (strategy_of provider)

  -- Without a workspace: the first free candidate, and no lease.
  resolve_free :
      Leases → ProviderConfig → HostSelectionRequest → List HostConfig → Result Selected × Leases
  unfolding select is_free
  resolve_free leases provider request hosts = elim (find (is_free leases) hosts) [
    | none ↦ (err (no_available_host request.provider), leases)
    | some host ↦ (ok (record { selection = select provider request host; lease = none }), leases)
  ]

  -- For a workspace: a candidate that it holds, or else the first that it can acquire.
  resolve_for :
      Leases
      → ProviderConfig
      → HostSelectionRequest
      → List HostConfig
      → String
      → ℕ
      → Result Selected × Leases
  unfolding select is_held_by acquire_first all_leased
  resolve_for leases provider request hosts workspace_id now =
      elim (find (is_held_by leases workspace_id) hosts) [
        | some host ↦ (
          ok (record {
            selection = select provider request host;
            lease = Leases.get leases host.name;
          }),
          leases,
        )
        | none ↦
            let (taken, leases') = acquire_first leases hosts workspace_id now in
            elim taken [
              | some (host, lease) ↦ (
                ok (record { selection = select provider request host; lease = some lease }),
                leases',
              )
              | none ↦ (err (all_leased request), leases')
            ]
      ]

  pub resolve_among :
      Leases
      → ProviderConfig
      → HostSelectionRequest
      → List HostConfig
      → Option String
      → ℕ
      → Result Selected × Leases
  unfolding resolve_free resolve_for no_candidate
  resolve_among leases provider request [] workspace_id now = (err (no_candidate request), leases)
  resolve_among leases provider request (h ∷ hs) workspace_id now = elim (truthy workspace_id) [
    | none ↦ resolve_free leases provider request (h ∷ hs)
    | some w ↦ resolve_for leases provider request (h ∷ hs) w now
  ]

  unfoldable pub resolve_with_lease :
      Leases → HostSelectionRequest → Option String → ℕ → Result Selected × Leases
  unfolding resolve_among candidates
  resolve_with_lease leases request workspace_id now =
      elim (lookup request.provider config.providers) [
        | none ↦ (err (unknown_provider request.provider), leases)
        | some provider ↦
            resolve_among leases provider request (candidates provider request) workspace_id now
      ]

  abbrev selection_only : Result Selected × Leases → Result ResolvedHost × Leases
  selection_only (ok s, leases) = (ok s.selection, leases)
  selection_only (err e, leases) = (err e, leases)

  unfoldable pub resolve : Leases → HostSelectionRequest → ℕ → Result ResolvedHost × Leases
  unfolding resolve_with_lease
  resolve leases request now = selection_only (resolve_with_lease leases request none now)

  unfoldable pub acquire_resolved :
      Leases → HostSelectionRequest → String → ℕ → Result ResolvedHost × Leases
  unfolding resolve_with_lease
  acquire_resolved leases request workspace_id now =
      selection_only (resolve_with_lease leases request (some workspace_id) now)

unfoldable pub release : Leases → String → String → Leases
unfolding Leases.release
release leases host workspace_id = Leases.release leases host workspace_id

unfoldable pub get_lease : Leases → String → Option LeaseRecord
unfolding Leases.get
get_lease leases host = Leases.get leases host
