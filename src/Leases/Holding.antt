-- ===== src/Leases/Holding.antt =====
-- Who holds a host: what `acquire` and `release` of plugin/src/leases.ts do to every host.
use opencode_remote_ssh.Base.{
  ℕ, String, ◌≡◌, ◌≢◌, ◌⊎◌, inl, inr, Option, none, some, lookup, lookup-insert, insert,
  lookup-erase, if◌then◌else◌, ◌==◌, arith, Option-cases,
}
use opencode_remote_ssh.Types.{exclusive, shared, LeaseRecord, leased_by, ok, err}
use opencode_remote_ssh.Leases.{Leases, grant, take_lease, acquire, release, get}

-- The workspace that holds a host.
abbrev pub holder : Leases → String → Option String
holder leases host = elim (lookup host leases) [ none ↦ none | some l ↦ some l.workspace_id ]

-- An exclusive acquisition succeeds exactly on a free host, and then changes that host alone; a
-- refused one names the workspace that holds the host and changes nothing.
pub acquire-exclusive :
    (leases : Leases) (host workspace_id : String) (now : ℕ)
    → let (result, after) = acquire leases host workspace_id exclusive now in
      ((get leases host ≡ none)
        × (result ≡ ok (grant host workspace_id exclusive now))
        × ((h : String)
            → get after h
              ≡ (if h == host then some (grant host workspace_id exclusive now) else get leases h)))
      ⊎ ((current : LeaseRecord) × (get leases host ≡ some current)
          × (result ≡ err (leased_by host current.workspace_id))
          × (after ≡ leases))
unfolding acquire take_lease get
acquire-exclusive leases host workspace_id now = elim (Option-cases (lookup host leases)) [
  | inl free ↦ inl (
    free,
    ground arith,
    λ h. ground (arith, lookup-insert h host (grant host workspace_id exclusive now) leases),
  )
  | inr (current, held) ↦ inr (current, held, ground arith, ground arith)
]

-- A release by the holder frees the host and no other; a release by anybody else, or of a free host,
-- changes nothing.
pub get-release :
    (leases : Leases) (host workspace_id h : String)
    → get (release leases host workspace_id) h ≡ (
        if h == host
        then elim (get leases host) [
          | none ↦ none
          | some l ↦ if l.workspace_id == workspace_id then none else some l
        ]
        else get leases h)
unfolding release get
get-release leases host workspace_id h = elim (Option-cases (lookup host leases)) [
  | inl free ↦ ground (arith, lookup-erase h host leases)
  | inr (current, held) ↦ ground (arith, lookup-erase h host leases)
]

-- Taken in shared mode, a host that another workspace holds passes to the newcomer: the first
-- holder can no longer release it, and once the newcomer has, the host counts as free.
pub acquire-shared_evicts :
    (leases : Leases) (host workspace_id : String) (now : ℕ) (current : LeaseRecord)
    → get leases host ≡ some current
    → current.workspace_id ≢ workspace_id
    → let after = (acquire leases host workspace_id shared now).1 in
      (get after host ≡ some (grant host workspace_id shared now))
      × (release after host current.workspace_id ≡ after)
      × (get (release after host workspace_id) host ≡ none)
unfolding acquire release get
acquire-shared_evicts leases host workspace_id now current held other =
    let lease = grant host workspace_id shared now in
    ground (
      arith,
      lookup-insert host host lease leases,
      lookup-erase host host (insert host lease leases),
    )
