-- ===== src/State/Loaded.antt =====
-- What comes out of the state file (plugin/src/state.ts), id by id.
use opencode_remote_ssh.Base.{
  String, ◌≡◌, refl, ◌≢◌, ◌⊎◌, inl, inr, Option, none, some, List, [], ◌∷◌, lookup, insert,
  lookup-insert, lookup-erase, All, if◌then◌else◌, ◌==◌, arith, Option-cases, ◌∙◌, sym, ap, subst,
  string_dec, lookup-nil,
}
use opencode_remote_ssh.Types.{WorkspaceBinding}
use opencode_remote_ssh.State.{
  Bindings, StoredItem, JsonItem, scalar, object, array, set, delete, replace, checked, load_item,
  load_items, load, stored, save,
}
use opencode_remote_ssh.State.Persistence.{
  IsComplete, IsValid, bindings-IsValid, checked-IsComplete, checked-stored, load-save,
}

-- No item is a complete binding of the workspace.
abbrev pub NoneFor : String → List JsonItem → Type 0
NoneFor w items =
    All
      (λ item.
        (b : WorkspaceBinding) → IsComplete b → item ≡ object (stored b) → b.workspace_id ≢ w)
      items

-- The last item that is a complete binding of the workspace.
pub data Latest (w : String) : List JsonItem → WorkspaceBinding → Type 0 where
  this :
      (b : WorkspaceBinding) (items : List JsonItem)
      → IsComplete b
      → b.workspace_id ≡ w
      → NoneFor w items
      → Latest w (object (stored b) ∷ items) b
  later :
      (item : JsonItem) (items : List JsonItem) (b : WorkspaceBinding)
      → Latest w items b
      → Latest w (item ∷ items) b

-- What an answer says of the items.
abbrev pub Answers : String → List JsonItem → Option WorkspaceBinding → Type 0
Answers w items none = NoneFor w items
Answers w items (some b) = Latest w items b

checked-raw : (item : StoredItem) (b : WorkspaceBinding) → checked item ≡ some b → item ≡ stored b
unfolding checked
checked-raw item b e = ground arith

abbrev read : JsonItem → Option WorkspaceBinding
read scalar = none
read (object item) = checked item

-- An item that does not count changes nothing, and is no complete binding.
passed_over : (item : JsonItem) (t : Bindings) → read item ≡ none → load_item item t ≡ t
unfolding load_item
passed_over scalar t e = refl
passed_over (object item) t e = rw (e, load_item) refl

passed_over-NoneFor :
    (w : String) (item : JsonItem)
    → read item ≡ none
    → (b : WorkspaceBinding) → IsComplete b
    → item ≡ object (stored b)
    → b.workspace_id ≢ w
passed_over-NoneFor w item e b c same id =
    let kept : read item ≡ some b = ap read same ∙ checked-stored b c in absurd cc

taken :
    (item : JsonItem) (b : WorkspaceBinding) (t : Bindings)
    → read item ≡ some b
    → (item ≡ object (stored b)) × IsComplete b × (load_item item t ≡ insert b.workspace_id b t)
unfolding load_item
taken scalar b t e = absurd cc
taken (object item) b t e =
    (ap object (checked-raw item b e), checked-IsComplete item b e, rw (e, load_item) refl)

-- From a map on, an id has what the items say of it, or what it had.
abbrev From : String → List JsonItem → Option WorkspaceBinding → Option WorkspaceBinding → Type 0
From w items old r =
    (NoneFor w items × (r ≡ old)) ⊎ ((b : WorkspaceBinding) × (r ≡ some b) × Latest w items b)

From-cons :
    (w : String) (item : JsonItem) (items : List JsonItem) (t : Bindings)
    (r : Option WorkspaceBinding)
    → From w items (lookup w (load_item item t)) r
    → From w (item ∷ items) (lookup w t) r
From-cons w item items t r (inr (b, e, l)) = inr (b, e, later item items b l)
From-cons w item items t r (inl (out, e)) = elim (Option-cases (read item)) [
  | inl dropped ↦
      inl
        ((passed_over-NoneFor w item dropped, out), e ∙ ap (lookup w) (passed_over item t dropped))
  | inr (b, kept) ↦
      let (same, c, next) = taken item b t kept in
      let now : r ≡ (if w == b.workspace_id then some b else lookup w t) =
        e ∙ ap (lookup w) next ∙ lookup-insert w b.workspace_id b t in
      elim (string_dec w b.workspace_id) [
        | yes mine ↦ inr (
          b,
          ground (arith, now),
          subst (λ i. Latest w (i ∷ items) b) (sym same) (this b items c (sym mine) out),
        )
        | no other ↦ inl (
          (
            λ d cd raw id.
                let read_d : read item ≡ some d = ap read raw ∙ checked-stored d cd in
                other (ground (arith, kept, read_d)),
            out,
          ),
          ground (arith, now),
        )
      ]
]

load_items-From :
    (w : String) (items : List JsonItem) (t : Bindings)
    → From w items (lookup w t) (lookup w (load_items items t))
unfolding load_items
load_items-From w [] t = inl (tt, refl)
load_items-From w (item ∷ items) t =
    From-cons w item items t (lookup w (load_items items (load_item item t)))
      (load_items-From w items (load_item item t))

From-Answers :
    (w : String) (items : List JsonItem) (r : Option WorkspaceBinding)
    → From w items none r
    → Answers w items r
From-Answers w items none (inl (out, e)) = out
From-Answers w items (some b) (inl (out, e)) = absurd cc
From-Answers w items none (inr (b, e, l)) = absurd cc
From-Answers w items (some b) (inr (c, e, l)) =
    let same : c ≡ b = cc in subst (Latest w items) same l

-- From an array whose objects have members of the declared types, where the id, the provider, the host
-- and the token may be missing or empty: an id has the binding of the last item of that id which has all
-- four, and nothing where there is none.
pub load-Answers :
    (w : String) (items : List JsonItem) → Answers w items (lookup w (load (array items)))
unfolding load
load-Answers w items = From-Answers w items (lookup w (load_items items [])) (
    subst (λ o. From w items o (lookup w (load_items items []))) (lookup-nil w)
      (load_items-From w items []))

-- For a well-formed map and a binding whose id, provider, host and token are not empty: after a restart,
-- `set` and `replace` have stored that binding under its id, `delete` has left nothing under the given id, and
-- every other id has what it had.
pub load-changed :
    (bindings : Bindings) (b : WorkspaceBinding) (gone v : String)
    → IsValid bindings
    → IsComplete b
    → (lookup v (load (save (set bindings b)))
        ≡ (if v == b.workspace_id then some b else lookup v bindings))
      × (lookup v (load (save (replace bindings b)))
          ≡ (if v == b.workspace_id then some b else lookup v bindings))
      × (lookup v (load (save (delete bindings gone)))
          ≡ (if v == gone then none else lookup v bindings))
unfolding set replace delete
load-changed bindings b gone v valid c =
    let (after_set, after_replace, after_delete) = bindings-IsValid bindings b gone c valid in
    (
      ap (lookup v) (load-save (set bindings b) after_set)
          ∙ lookup-insert v b.workspace_id b bindings,
      ap (lookup v) (load-save (replace bindings b) after_replace)
          ∙ lookup-insert v b.workspace_id b bindings,
      ap (lookup v) (load-save (delete bindings gone) after_delete) ∙ lookup-erase v gone bindings,
    )
