-- ===== src/Leases/Valid.antt =====
-- Well-formed lease maps (plugin/src/leases.ts).
use opencode_remote_ssh.Base.{
  insert, erase, or_default, ℕ, String, ◌≡◌, refl, ◌↔◌, true, Option, some, [], ◌∷◌, lookup,
  string_dec, arith, NodupKeys, KeyedBy, insert-NodupKeys, erase-NodupKeys, insert-KeyedBy,
  erase-KeyedBy, values,
}
use opencode_remote_ssh.Types.{LeaseMode, LeaseRecord}
use opencode_remote_ssh.Leases.{Leases, grant, acquire, restore, clear, release, get, has_workspace}

pub record IsValid (leases : Leases) : Type 0 where
  pub single : NodupKeys leases
  pub named : KeyedBy (λ l. l.host) leases

insert-IsValid :
    (leases : Leases) (l : LeaseRecord) → IsValid leases → IsValid (insert l.host l leases)
insert-IsValid leases l v = record {
  single = insert-NodupKeys l.host l leases v.single;
  named = insert-KeyedBy (λ l. l.host) l.host l leases refl v.named;
}

erase-IsValid : (leases : Leases) (host : String) → IsValid leases → IsValid (erase host leases)
erase-IsValid leases host v = record {
  single = erase-NodupKeys host leases v.single;
  named = erase-KeyedBy (λ l. l.host) host leases v.named;
}

-- From a well-formed map, `clear`, `acquire`, `restore` and `release` all leave one, `acquire` also
-- when it throws.
pub leases-IsValid :
    (leases : Leases) (host workspace_id : String) (mode : LeaseMode) (at : Option ℕ) (now : ℕ)
    → IsValid leases
    → IsValid (clear leases)
      × IsValid (acquire leases host workspace_id mode now).1
      × IsValid (restore leases host workspace_id mode at now).1
      × IsValid (release leases host workspace_id)
unfolding clear acquire restore release
leases-IsValid leases host workspace_id mode at now v = (
  record { single = tt; named = tt },
  ground (arith, insert-IsValid leases (grant host workspace_id mode now) v),
  insert-IsValid leases (grant host workspace_id mode (or_default at now)) v,
  ground (arith, erase-IsValid leases host v),
)

lookup-has :
    (leases : Leases) (w host : String) (l : LeaseRecord)
    → lookup host leases ≡ some l
    → l.workspace_id ≡ w
    → has_workspace leases w ≡ true
unfolding has_workspace lookup values
lookup-has [] w host l h e = cc
lookup-has (_ ∷ t) w host l h e = ground (arith, lookup-has t w host l)

has-lookup :
    (leases : Leases) (w : String)
    → NodupKeys leases
    → has_workspace leases w ≡ true
    → (host : String) × (l : LeaseRecord) × (lookup host leases ≡ some l) × (l.workspace_id ≡ w)
unfolding has_workspace lookup values
has-lookup [] w u h = cc
has-lookup ((k, l) ∷ t) w u h = elim (string_dec l.workspace_id w) [
  | yes e ↦ (k, l, ground arith, e)
  | no n ↦ let (host, m, held, e) = has-lookup t w u.1 (ground arith) in (host, m, ground arith, e)
]

-- In a well-formed map, `hasWorkspace` tells exactly whether some host is leased to the workspace.
pub has_workspace_iff :
    (leases : Leases) (w : String)
    → IsValid leases
    → (has_workspace leases w ≡ true)
      ↔ ((host : String) × (l : LeaseRecord) × (get leases host ≡ some l) × (l.workspace_id ≡ w))
unfolding get
has_workspace_iff leases w v =
    (has-lookup leases w v.single, λ (host, l, h, e). lookup-has leases w host l h e)
