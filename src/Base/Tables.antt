-- ===== src/Base/Tables.antt =====
-- A JavaScript `Map` with string keys, or an object used as one: entries in insertion order, where
-- setting a key that is there keeps its place.
use Prim.Native.String.{String}
use mathlib.Core.Path.{◌≡◌, refl}
use mathlib.Core.Option.{Option, none, some}
use mathlib.Core.List.{List, [], ◌∷◌}
use native.Mathlib.Omega.{arith}
use opencode_remote_ssh.Base.Tests.{if◌then◌else◌, ◌==◌}
use opencode_remote_ssh.Base.Lists.{In}

abbrev pub Table {ℓ} : Type ℓ → Type ℓ
Table V = List (String × V)

module _ {ℓ} {V : Type ℓ} where
  -- `map.get(k)`
  unfoldable pub lookup : String → Table V → Option V
  lookup k [] = none
  lookup k ((j, v) ∷ t) = let rest = lookup k t in if k == j then some v else rest

  -- `map.set(k, v)`
  unfoldable pub insert : String → V → Table V → Table V
  insert k v [] = (k, v) ∷ []
  insert k v ((j, w) ∷ t) = let rest = insert k v t in if k == j then (k, v) ∷ t else (j, w) ∷ rest

  -- `map.delete(k)`. Every entry of the key goes; a map has at most one.
  unfoldable pub erase : String → Table V → Table V
  erase k [] = []
  erase k ((j, w) ∷ t) = let rest = erase k t in if k == j then rest else (j, w) ∷ rest

  -- `Array.from(map.values())`
  unfoldable pub values : Table V → List V
  values [] = []
  values ((_, v) ∷ t) = v ∷ values t

  -- Each key has one entry.
  abbrev pub NodupKeys : Table V → Type ℓ
  NodupKeys [] = Unit
  NodupKeys ((k, _) ∷ t) = (lookup k t ≡ none) × NodupKeys t

  -- Each value is stored under the key that it carries.
  abbrev pub KeyedBy : (V → String) → Table V → Type 0
  KeyedBy key [] = Unit {0}
  KeyedBy key ((k, v) ∷ t) = (key v ≡ k) × KeyedBy key t

  pub lookup-nil : (k : String) → lookup k [] ≡ none
  unfolding lookup
  lookup-nil k = refl

  pub lookup-insert :
      (j k : String) (v : V) (t : Table V)
      → lookup j (insert k v t) ≡ (if j == k then some v else lookup j t)
  unfolding lookup insert
  lookup-insert j k v [] = refl
  lookup-insert j k v (_ ∷ t) = ground (arith, lookup-insert j k v t)

  pub lookup-erase :
      (j k : String) (t : Table V) → lookup j (erase k t) ≡ (if j == k then none else lookup j t)
  unfolding lookup erase
  lookup-erase j k [] = ground arith
  lookup-erase j k (_ ∷ t) = ground (arith, lookup-erase j k t)

  pub insert-NodupKeys : (k : String) (v : V) (t : Table V) → NodupKeys t → NodupKeys (insert k v t)
  unfolding lookup insert
  insert-NodupKeys k v [] _ = (refl, tt)
  insert-NodupKeys k v ((j, _) ∷ t) (fresh, u) =
      ground (arith, insert-NodupKeys k v t u, lookup-insert j k v t)

  pub erase-NodupKeys : (k : String) (t : Table V) → NodupKeys t → NodupKeys (erase k t)
  unfolding erase
  erase-NodupKeys k [] _ = tt
  erase-NodupKeys k ((j, _) ∷ t) (fresh, u) =
      ground (arith, erase-NodupKeys k t u, lookup-erase j k t)

  pub insert-KeyedBy :
      (key : V → String) (k : String) (v : V) (t : Table V)
      → key v ≡ k
      → KeyedBy key t
      → KeyedBy key (insert k v t)
  unfolding insert
  insert-KeyedBy key k v [] e _ = (e, tt)
  insert-KeyedBy key k v (_ ∷ t) e u = ground (arith, insert-KeyedBy key k v t e u.1)

  pub erase-KeyedBy :
      (key : V → String) (k : String) (t : Table V) → KeyedBy key t → KeyedBy key (erase k t)
  unfolding erase
  erase-KeyedBy key k [] _ = tt
  erase-KeyedBy key k (_ ∷ t) u = ground (arith, erase-KeyedBy key k t u.1)

  pub lookup-KeyedBy :
      (key : V → String) (k : String) (v : V) (t : Table V)
      → KeyedBy key t
      → lookup k t ≡ some v
      → key v ≡ k
  unfolding lookup
  lookup-KeyedBy key k v [] u h = cc
  lookup-KeyedBy key k v (_ ∷ t) u h = ground (arith, lookup-KeyedBy key k v t u.1)

module _ {V : Type 0} where
  pub lookup-values : (k : String) (v : V) (t : Table V) → lookup k t ≡ some v → In v (values t)
  unfolding lookup values
  lookup-values k v [] h = cc
  lookup-values k v (_ ∷ t) h = ground (arith, lookup-values k v t)
