-- ===== src/State/Persistence.antt =====
-- Well-formed maps of bindings, and their file (plugin/src/state.ts).
use mathlib.Core.List.{append-nil, append_assoc}
use opencode_remote_ssh.Base.{
  String, ◌≡◌, refl, ◌≢◌, inl, inr, none, some, Bool, true, false, List, [], ◌∷◌, ◌++◌, lookup,
  insert, erase, values, NodupKeys, KeyedBy, insert-NodupKeys, erase-NodupKeys, insert-KeyedBy,
  erase-KeyedBy, All, if◌then◌else◌, ◌==◌, map, arith, Option-cases, ◌∙◌, sym, ap,
}
use opencode_remote_ssh.Types.{WorkspaceBinding}
use opencode_remote_ssh.State.{
  Bindings, StoredItem, JsonItem, scalar, object, StateFile, missing, malformed, not_array, array,
  set, delete, replace, checked, load_item, load_items, load, stored, save,
}

-- A binding whose four members that `load` tests are not empty.
pub record IsComplete (b : WorkspaceBinding) : Type 0 where
  pub with_id : b.workspace_id ≢ ""
  pub with_provider : b.provider ≢ ""
  pub with_host : b.host ≢ ""
  pub with_token : b.token ≢ ""

-- A binding of the table is complete.
abbrev pub Complete : String × WorkspaceBinding → Type 0
Complete (_, b) = IsComplete b

-- One entry for each workspace, stored under the id of its binding, which is complete.
pub record IsValid (bindings : Bindings) : Type 0 where
  pub single : NodupKeys bindings
  pub keyed : KeyedBy (λ b. b.workspace_id) bindings
  pub complete : All Complete bindings

insert-Complete :
    (k : String) (b : WorkspaceBinding) (t : Bindings)
    → IsComplete b
    → All Complete t
    → All Complete (insert k b t)
unfolding insert
insert-Complete k b [] c a = (c, tt)
insert-Complete k b ((j, d) ∷ t) c a = ground (arith, insert-Complete k b t c a.1)

All-if :
    (c : Bool) (t u : Bindings)
    → All Complete t
    → All Complete u
    → All Complete (if c then t else u)
All-if true t u h k = h
All-if false t u h k = k

erase-Complete : (k : String) (t : Bindings) → All Complete t → All Complete (erase k t)
unfolding erase
erase-Complete k [] a = tt
erase-Complete k ((j, d) ∷ t) a =
    let rest = erase-Complete k t a.1 in
    All-if (k == j) (erase k t) ((j, d) ∷ erase k t) rest (a.0, rest)

insert-IsValid :
    (b : WorkspaceBinding) (t : Bindings)
    → IsComplete b
    → IsValid t
    → IsValid (insert b.workspace_id b t)
insert-IsValid b t c v = record {
  single = insert-NodupKeys b.workspace_id b t v.single;
  keyed = insert-KeyedBy (λ b. b.workspace_id) b.workspace_id b t refl v.keyed;
  complete = insert-Complete b.workspace_id b t c v.complete;
}

-- `set`, `replace` and `delete` keep the map well formed, given a binding whose id, provider, host
-- and token are not empty.
pub bindings-IsValid :
    (bindings : Bindings) (b : WorkspaceBinding) (workspace_id : String)
    → IsComplete b
    → IsValid bindings
    → IsValid (set bindings b)
      × IsValid (replace bindings b)
      × IsValid (delete bindings workspace_id)
unfolding set replace delete
bindings-IsValid bindings b workspace_id c v = (
  insert-IsValid b bindings c v,
  insert-IsValid b bindings c v,
  record {
    single = erase-NodupKeys workspace_id bindings v.single;
    keyed = erase-KeyedBy (λ b. b.workspace_id) workspace_id bindings v.keyed;
    complete = erase-Complete workspace_id bindings v.complete;
  },
)

pub checked-IsComplete :
    (item : StoredItem) (b : WorkspaceBinding) → checked item ≡ some b → IsComplete b
unfolding checked
checked-IsComplete item b e = ground arith

load_item-IsValid : (item : JsonItem) (t : Bindings) → IsValid t → IsValid (load_item item t)
unfolding load_item
load_item-IsValid scalar t v = v
load_item-IsValid (object item) t v = elim (Option-cases (checked item)) [
  | inl dropped ↦ rw (dropped, load_item) v
  | inr (b, kept) ↦ rw (kept, load_item) (insert-IsValid b t (checked-IsComplete item b kept) v)
]

load_items-IsValid :
    (items : List JsonItem) (t : Bindings) → IsValid t → IsValid (load_items items t)
unfolding load_items
load_items-IsValid [] t v = v
load_items-IsValid (item ∷ items) t v =
    load_items-IsValid items (load_item item t) (load_item-IsValid item t v)

-- Whatever the state file holds, what is loaded from it is well formed.
pub load-IsValid : (file : StateFile) → IsValid (load file)
unfolding load
load-IsValid missing = record { single = tt; keyed = tt; complete = tt }
load-IsValid malformed = record { single = tt; keyed = tt; complete = tt }
load-IsValid not_array = record { single = tt; keyed = tt; complete = tt }
load-IsValid (array items) =
    load_items-IsValid items [] (record { single = tt; keyed = tt; complete = tt })

pub checked-stored : (b : WorkspaceBinding) → IsComplete b → checked (stored b) ≡ some b
unfolding checked
checked-stored b c = ground arith

-- Inserting under a new key appends.
insert-append :
    (k : String) (b : WorkspaceBinding) (t : Bindings)
    → lookup k t ≡ none
    → insert k b t ≡ t ++ ((k, b) ∷ [])
unfolding insert lookup
insert-append k b [] fresh = refl
insert-append k b (_ ∷ t) fresh = ground (arith, insert-append k b t)

lookup-append_none :
    (k : String) (t u : Bindings)
    → lookup k (t ++ u) ≡ (elim (lookup k t) [ none ↦ lookup k u | some b ↦ some b ])
unfolding lookup
lookup-append_none k [] u = refl
lookup-append_none k (_ ∷ t) u = ground (arith, lookup-append_none k t u)

-- No key of the second table is in the first.
abbrev Apart : Bindings → Bindings → Type 0
Apart t [] = Unit {0}
Apart t ((k, _) ∷ u) = (lookup k t ≡ none) × Apart t u

Apart-snoc :
    (t u : Bindings) (k : String) (b : WorkspaceBinding)
    → Apart t u
    → lookup k u ≡ none
    → Apart (t ++ ((k, b) ∷ [])) u
unfolding lookup
Apart-snoc t [] k b a fresh = tt
Apart-snoc t ((j, c) ∷ u) k b a fresh =
    ground (arith, Apart-snoc t u k b a.1, lookup-append_none j t ((k, b) ∷ []))

load_items-values :
    (t u : Bindings)
    → Apart t u
    → IsValid u
    → load_items (map (λ b. object (stored b)) (values u)) t ≡ t ++ u
unfolding load_items values
load_items-values t [] a v = sym (append-nil t)
load_items-values t ((k, b) ∷ u) a v =
    ap (load_items (map (λ b. object (stored b)) (values u))) step
    ∙ load_items-values (t ++ ((k, b) ∷ [])) u (Apart-snoc t u k b a.1 v.single.0)
        (record { single = v.single.1; keyed = v.keyed.1; complete = v.complete.1 })
    ∙ append_assoc t ((k, b) ∷ []) u
  where
    step : load_item (object (stored b)) t ≡ t ++ ((k, b) ∷ [])
    step =
        rw (checked-stored b v.complete.0, load_item)
          (ap (λ j. insert j b t) v.keyed.0 ∙ insert-append k b t a.0)

Apart-nil : (u : Bindings) → Apart [] u
unfolding lookup
Apart-nil [] = tt
Apart-nil (_ ∷ u) = (refl, Apart-nil u)

-- A restart finds what was saved: for a well-formed map, reading the file that `save` wrote gives
-- the same map, in the same order.
pub load-save : (bindings : Bindings) → IsValid bindings → load (save bindings) ≡ bindings
unfolding load save
load-save bindings v = load_items-values [] bindings (Apart-nil bindings) v
