-- ===== src/Leases.antt =====
-- plugin/src/leases.ts: `LeaseManager`, a map from host names to leases. A method takes the map and
-- returns the new one; `now` is what `Date.now()` reads.
pub mod Holding
pub mod History
pub mod Locks
pub mod Valid
use opencode_remote_ssh.Base.{
  ℕ, String, Bool, true, false, Option, none, some, List, [], Table, lookup, insert, erase, values,
  any, if◌then◌else◌, ◌==◌, string_dec, or_default,
}
use opencode_remote_ssh.Types.{
  LeaseMode, exclusive, shared, LeaseRecord, Error, leased_by, Result, ok, err,
}

abbrev pub Leases : Type 0
Leases = Table LeaseRecord

-- The record that `acquire` and `restore` store under the host.
abbrev pub grant : String → String → LeaseMode → ℕ → LeaseRecord
grant host workspace_id mode at = record {
  host = host;
  workspace_id = workspace_id;
  mode = mode;
  acquired_at = at;
}

take_lease : Leases → String → String → LeaseMode → ℕ → Result LeaseRecord × Leases
take_lease leases host workspace_id mode now =
    let lease = grant host workspace_id mode now in (ok lease, insert host lease leases)

-- `if (mode === "exclusive" && current) throw`
refuse_or_take :
    LeaseMode → Option LeaseRecord → Leases → String → String → ℕ → Result LeaseRecord × Leases
unfolding take_lease
refuse_or_take exclusive (some current) leases host workspace_id now =
    (err (leased_by host current.workspace_id), leases)
refuse_or_take exclusive none leases host workspace_id now =
    take_lease leases host workspace_id exclusive now
refuse_or_take shared current leases host workspace_id now =
    take_lease leases host workspace_id shared now

unfoldable pub acquire : Leases → String → String → LeaseMode → ℕ → Result LeaseRecord × Leases
unfolding refuse_or_take
acquire leases host workspace_id mode now =
    refuse_or_take mode (lookup host leases) leases host workspace_id now

unfoldable pub restore : Leases → String → String → LeaseMode → Option ℕ → ℕ → LeaseRecord × Leases
restore leases host workspace_id mode acquired_at now =
    let lease = grant host workspace_id mode (or_default acquired_at now) in
    (lease, insert host lease leases)

unfoldable pub list : Leases → List LeaseRecord
list leases = values leases

unfoldable pub clear : Leases → Leases
clear leases = []

unfoldable pub has_workspace : Leases → String → Bool
has_workspace leases workspace_id =
    any (λ lease. lease.workspace_id == workspace_id) (values leases)

-- `if (!current) return; if (current.workspaceID !== workspaceID) return;`
release_current : Option LeaseRecord → Leases → String → String → Leases
release_current none leases host workspace_id = leases
release_current (some current) leases host workspace_id =
    if current.workspace_id == workspace_id then erase host leases else leases

unfoldable pub release : Leases → String → String → Leases
unfolding release_current
release leases host workspace_id = release_current (lookup host leases) leases host workspace_id

unfoldable pub get : Leases → String → Option LeaseRecord
get leases host = lookup host leases
