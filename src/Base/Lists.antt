-- ===== src/Base/Lists.antt =====
-- Array methods with Boolean callbacks, and sets of texts.
use Prim.Native.Nat.{ℕ, suc, ◌+◌}
use Prim.Native.String.{String}
use mathlib.Core.Path.{◌≡◌, refl}
use mathlib.Core.Logic.{◌⊎◌, inl, inr}
use mathlib.Core.Bool.{Bool, true, false, ◌&&◌, ◌||◌}
use mathlib.Core.Option.{Option, none, some}
use mathlib.Core.List.{List, [], ◌∷◌, ◌++◌}
use native.Mathlib.Omega.{arith}
use opencode_remote_ssh.Base.Tests.{if◌then◌else◌, ◌==◌}

module _ {ℓ} {A : Type ℓ} where
  abbrev pub length : List A → ℕ
  length [] = 0
  length (x ∷ xs) = suc (length xs)

  pub length-append : (xs ys : List A) → length (xs ++ ys) ≡ length xs + length ys
  length-append [] ys = omega arith
  length-append (x ∷ xs) ys = omega (arith, length-append xs ys)

  -- `xs.filter(keep)`
  abbrev pub filter : (A → Bool) → List A → List A
  filter keep [] = []
  filter keep (x ∷ xs) = let rest = filter keep xs in if keep x then x ∷ rest else rest

  -- `xs.find(test)`
  abbrev pub find : (A → Bool) → List A → Option A
  find test [] = none
  find test (x ∷ xs) = let rest = find test xs in if test x then some x else rest

  -- `xs.some(test)` and `xs.every(test)`
  abbrev pub any : (A → Bool) → List A → Bool
  any test [] = false
  any test (x ∷ xs) = test x || any test xs

  abbrev pub all : (A → Bool) → List A → Bool
  all test [] = true
  all test (x ∷ xs) = test x && all test xs

  -- A universal statement, which computes to a product.
  abbrev pub All {κ} : (A → Type κ) → List A → Type κ
  All P [] = Unit
  All P (x ∷ xs) = P x × All P xs

module _ {A : Type 0} where
  -- Membership, which computes to a sum.
  abbrev pub In : A → List A → Type 0
  In a [] = ⊥
  In a (x ∷ xs) = (a ≡ x) ⊎ In a xs

  -- What `find` returns is in the list and passes the test.
  pub find-In :
      (test : A → Bool) (xs : List A) (a : A) → find test xs ≡ some a → In a xs × (test a ≡ true)
  find-In test [] a h = cc
  find-In test (x ∷ xs) a h = ground (arith, find-In test xs a)

  pub find-none :
      (test : A → Bool) (xs : List A) → find test xs ≡ none → All (λ x. test x ≡ false) xs
  find-none test [] h = tt
  find-none test (x ∷ xs) h = ground (arith, find-none test xs)

  pub filter-In :
      (keep : A → Bool) (xs : List A) (a : A) → In a (filter keep xs) → In a xs × (keep a ≡ true)
  filter-In keep [] a h = elim h [ ]
  filter-In keep (x ∷ xs) a h = ground (arith, filter-In keep xs a)

  pub In-filter :
      (keep : A → Bool) (xs : List A) (a : A) → In a xs → keep a ≡ true → In a (filter keep xs)
  In-filter keep [] a h k = elim h [ ]
  In-filter keep (x ∷ xs) a (inl e) k = ground arith
  In-filter keep (x ∷ xs) a (inr m) k = ground (arith, In-filter keep xs a m k)

  pub All-In {κ} : (P : A → Type κ) (xs : List A) (a : A) → All P xs → In a xs → P a
  All-In P [] a h m = elim m [ ]
  All-In P (x ∷ xs) a h (inl e) = rw e h.0
  All-In P (x ∷ xs) a h (inr m) = All-In P xs a h.1 m

-- `xs.includes(s)` and `set.has(s)`
abbrev pub contains : List String → String → Bool
contains [] s = false
contains (x ∷ xs) s = s == x || contains xs s

-- `new Set(xs)`: the first of equal texts stays, in order.
abbrev add_member : List String → String → List String
add_member set s = if contains set s then set else set ++ (s ∷ [])

abbrev collect : List String → List String → List String
collect set [] = set
collect set (x ∷ xs) = collect (add_member set x) xs

unfoldable pub to_set : List String → List String
to_set xs = collect [] xs

contains-append :
    (xs ys : List String) (s : String) → contains (xs ++ ys) s ≡ (contains xs s || contains ys s)
contains-append [] ys s = refl
contains-append (x ∷ xs) ys s = ground (arith, contains-append xs ys s)

contains-collect :
    (set xs : List String) (s : String)
    → contains (collect set xs) s ≡ (contains set s || contains xs s)
contains-collect set [] s = ground arith
contains-collect set (x ∷ xs) s =
    ground (arith, contains-collect (add_member set x) xs s, contains-append set (x ∷ []) s)

-- A set has the members of the list that it is made of.
pub contains-to_set : (xs : List String) (s : String) → contains (to_set xs) s ≡ contains xs s
unfolding to_set
contains-to_set xs s = contains-collect [] xs s
