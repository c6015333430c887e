-- ===== src/Stub/Auth/Bearer.antt =====
-- Which requests `Require` lets through (stub/internal/auth/auth.go).
use opencode_remote_ssh.Base.{
  ◌≡◌, refl, ◌↔◌, Option, none, some, Option-cases, [], ◌∷◌, ◌++◌, All, arith, sym, ap, ◌∙◌, subst,
  true, false, inl, inr, Bool-cases, eqb,
}
use opencode_remote_ssh.Stub.Patterns.{Bytes, same}
use opencode_remote_ssh.Stub.Patterns.Meaning.{same_iff}
use opencode_remote_ssh.Stub.Auth.{lower, split_space, bearer, passed, check_token, require}

abbrev NoSpace : Bytes → Type 0
NoSpace s = All (λ b. eqb b b' ' ≡ false) s

split_space-join : (s back : Bytes) → NoSpace s → split_space (s ++ (b' ' ∷ back)) ≡ some (s, back)
unfolding split_space
split_space-join [] back h = refl
split_space-join (b ∷ s) back (out, h) = ground (arith, split_space-join s back h)

abbrev joined : Option (Bytes × Bytes) → Bytes
joined none = []
joined (some (front, back)) = front ++ (b' ' ∷ back)

split_space-parts :
    (s front back : Bytes) → split_space s ≡ some (front, back) → s ≡ front ++ (b' ' ∷ back)
unfolding split_space
split_space-parts [] front back e = absurd cc
split_space-parts (b ∷ s) front back e = elim (Bool-cases (eqb b b' ')) [
  | inl space ↦
      let pair : ◌≡◌ {A = Option (Bytes × Bytes)} (some ([], s)) (some (front, back)) =
        ground arith in
      let space_b : b ≡ b' ' = ground arith in ap (λ c. c ∷ s) space_b ∙ ap joined pair
  | inr other ↦ elim (Option-cases (split_space s)) [
    | inl end ↦ absurd (ground arith)
    | inr ((f, k), found) ↦
        let pair : ◌≡◌ {A = Option (Bytes × Bytes)} (some (b ∷ f, k)) (some (front, back)) =
          ground arith in
        let rest = split_space-parts s f k found in ap (λ r. b ∷ r) rest ∙ ap joined pair
  ]
]

lower-NoSpace : (s : Bytes) → NoSpace (lower s) → NoSpace s
unfolding lower
lower-NoSpace [] h = tt
lower-NoSpace (b ∷ s) (out, h) = (ground arith, lower-NoSpace s h)

-- A header that can be let through, for a token.
abbrev pub Bears : Bytes → Bytes → Type 0
Bears token header =
    (scheme : Bytes) × (header ≡ scheme ++ (b' ' ∷ token)) × (lower scheme ≡ bearer)

check_token-passed :
    (token scheme back given : Bytes)
    → check_token token (some (scheme, back)) ≡ passed given
    → (given ≡ token) × (back ≡ token) × (lower scheme ≡ bearer)
check_token-passed token scheme back given e = elim (Bool-cases (same (lower scheme) bearer)) [
  | inl right ↦ elim (Bool-cases (same back token)) [
    | inl equal ↦
        let verdict : passed back ≡ passed given = ground arith in
        let whole = (same_iff back token).0 equal in
        (cc, whole, (same_iff (lower scheme) bearer).0 right)
    | inr differ ↦ absurd (ground arith)
  ]
  | inr wrong ↦ absurd (ground arith)
]

require-passed :
    (token header given : Bytes)
    → require token header ≡ passed given
    → (given ≡ token) × Bears token header
unfolding require
require-passed token [] given e = absurd cc
require-passed token (b ∷ s) given e = elim (Option-cases (split_space (b ∷ s))) [
  | inl unsplit ↦ absurd (ground arith)
  | inr ((scheme, back), found) ↦
      let (same_token, whole, right) =
        check_token-passed token scheme back given (sym (ap (check_token token) found) ∙ e) in
      (
        same_token,
        (
          scheme,
          split_space-parts (b ∷ s) scheme back found ∙ ap (λ r. scheme ++ (b' ' ∷ r)) whole,
          right,
        ),
      )
]

bearer-split_space :
    (scheme back : Bytes)
    → lower scheme ≡ bearer
    → split_space (scheme ++ (b' ' ∷ back)) ≡ some (scheme, back)
bearer-split_space scheme back e = split_space-join scheme back (
    lower-NoSpace scheme (subst NoSpace (sym e) (refl, (refl, (refl, (refl, (refl, (refl, tt))))))))

require-split :
    (token s : Bytes) (pair : Bytes × Bytes)
    → split_space s ≡ some pair
    → require token s ≡ check_token token (some pair)
unfolding require split_space
require-split token [] pair e = absurd (cc)
require-split token (b ∷ s) pair e = ap (check_token token) e

passed-require :
    (token header given : Bytes)
    → (given ≡ token) × Bears token header
    → require token header ≡ passed given
passed-require token header given (same_token, (scheme, whole, right)) =
    let split = ap split_space whole ∙ bearer-split_space scheme token right in
    let lowered : same (lower scheme) bearer ≡ true = (same_iff (lower scheme) bearer).1 right in
    let equal : same token token ≡ true = (same_iff token token).1 refl in
    require-split token header (scheme, token) split ∙ ground (arith)

-- A request is let through, with a token, if and only if the token is the stub's and the header is a
-- scheme that reads "bearer" in lower case, one space, and the token.
pub require_iff :
    (token header given : Bytes)
    → (require token header ≡ passed given) ↔ (
        (given ≡ token)
        × ((scheme : Bytes) × (header ≡ scheme ++ (b' ' ∷ token)) × (lower scheme ≡ bearer)))
require_iff token header given =
    (require-passed token header given, passed-require token header given)
