-- ===== src/Stub/Patterns/Meaning.antt =====
-- What `matchPattern` (stub/internal/state/state.go) decides.
use opencode_remote_ssh.Base.{
  ℕ, zero, suc, ◌-◌, ◌≡◌, refl, ◌↔◌, ◌⊎◌, inl, inr, true, false, [], ◌∷◌, ◌++◌, length,
  length-append, arith, Bool-cases, sym, ap, ◌∙◌, ltb,
}
use opencode_remote_ssh.Stub.Patterns.{
  Bytes, take, drop, same, subtree, star, ends_in, without_end, in_subtree, has_prefix,
  match_pattern,
}

pub same_iff : (s t : Bytes) → (same s t ≡ true) ↔ (s ≡ t)
unfolding same
same_iff [] [] = (λ _. refl, λ _. refl)
same_iff [] (c ∷ t) = (λ e. cc, λ e. cc)
same_iff (b ∷ s) [] = (λ e. cc, λ e. cc)
same_iff (b ∷ s) (c ∷ t) =
    (λ e. ground (arith, (same_iff s t).0), λ e. ground (arith, (same_iff s t).1))

take-drop : (n : ℕ) (s : Bytes) → take n s ++ drop n s ≡ s
unfolding take drop
take-drop zero s = refl
take-drop (suc n) [] = refl
take-drop (suc n) (b ∷ s) = ap (λ t. b ∷ t) (take-drop n s)

take-append : (s t : Bytes) → take (length s) (s ++ t) ≡ s
unfolding take
take-append [] t = refl
take-append (b ∷ s) t = ap (λ r. b ∷ r) (take-append s t)

drop-append : (s t : Bytes) → drop (length s) (s ++ t) ≡ t
unfolding drop
drop-append [] t = refl
drop-append (b ∷ s) t = drop-append s t

append-nil : (s : Bytes) → s ++ [] ≡ s
append-nil [] = refl
append-nil (b ∷ s) = ap (λ r. b ∷ r) (append-nil s)

append_assoc : (r s t : Bytes) → (r ++ s) ++ t ≡ r ++ (s ++ t)
append_assoc [] s t = refl
append_assoc (b ∷ r) s t = ap (λ x. b ∷ x) (append_assoc r s t)

length-front : (p suffix : Bytes) → length (p ++ suffix) - length suffix ≡ length p
length-front p suffix = omega (arith, length-append p suffix)

without_end-append : (p suffix : Bytes) → without_end suffix (p ++ suffix) ≡ p
without_end-append p suffix =
    ap (λ n. take n (p ++ suffix)) (length-front p suffix) ∙ take-append p suffix

ends_in-append : (p suffix : Bytes) → ends_in suffix (p ++ suffix) ≡ true
ends_in-append p suffix =
    let fits : ltb (length (p ++ suffix)) (length suffix) ≡ false =
      ground (arith, length-append p suffix) in
    let end : same (drop (length (p ++ suffix) - length suffix) (p ++ suffix)) suffix ≡ true =
      (same_iff _ suffix).1
        (ap (λ n. drop n (p ++ suffix)) (length-front p suffix) ∙ drop-append p suffix) in
    ground arith

ends_in-split : (s suffix : Bytes) → ends_in suffix s ≡ true → s ≡ without_end suffix s ++ suffix
ends_in-split s suffix e =
    let end : same (drop (length s - length suffix) s) suffix ≡ true = ground arith in
    sym (take-drop (length s - length suffix) s)
    ∙ ap (λ r. without_end suffix s ++ r) ((same_iff _ suffix).0 end)

-- A path that begins with a text.
abbrev pub Begins : Bytes → Bytes → Type 0
Begins prefix path = (rest : Bytes) × (path ≡ prefix ++ rest)

has_prefix_iff : (prefix path : Bytes) → (has_prefix prefix path ≡ true) ↔ Begins prefix path
unfolding has_prefix
has_prefix_iff prefix path = (
  λ e.
      let front : same (take (length prefix) path) prefix ≡ true = ground arith in
      (
        drop (length prefix) path,
        sym (take-drop (length prefix) path)
            ∙ ap (λ r. r ++ drop (length prefix) path) ((same_iff _ prefix).0 front),
      ),
  λ (rest, e).
      let fits : ltb (length path) (length prefix) ≡ false =
        ground (arith, ap length e, length-append prefix rest) in
      let front : same (take (length prefix) path) prefix ≡ true =
        (same_iff _ prefix).1 (ap (take (length prefix)) e ∙ take-append prefix rest) in
      ground arith,
)

-- A directory and what its path is continued by after a slash.
abbrev pub Inside : Bytes → Bytes → Type 0
Inside dir path = (path ≡ dir) ⊎ Begins (dir ++ (b'/' ∷ [])) path

slash-cons : (dir rest : Bytes) → (dir ++ (b'/' ∷ [])) ++ rest ≡ dir ++ (b'/' ∷ rest)
slash-cons dir rest = append_assoc dir (b'/' ∷ []) rest

in_subtree-Inside : (dir path : Bytes) → in_subtree dir path ≡ true → Inside dir path
unfolding in_subtree
in_subtree-Inside dir path e = elim (Bool-cases (same path dir)) [
  | inl here ↦ inl ((same_iff path dir).0 here)
  | inr elsewhere ↦ elim (Bool-cases (same path (dir ++ (b'/' ∷ [])))) [
    | inl there ↦ inr ([], (same_iff path _).0 there ∙ sym (append-nil (dir ++ (b'/' ∷ []))))
    | inr no_slash ↦
        let n = length dir in
        let slash : same (take 1 (drop n path)) (b'/' ∷ []) ≡ true = ground arith in
        let front : same (take n path) dir ≡ true = ground arith in
        let rest = drop 1 (drop n path) in
        inr (
          rest,
          sym (take-drop n path)
              ∙ ap (λ r. r ++ drop n path) ((same_iff _ dir).0 front)
              ∙ ap (λ r. dir ++ r)
                  (sym (take-drop 1 (drop n path))
                    ∙ ap (λ r. r ++ rest) ((same_iff _ (b'/' ∷ [])).0 slash))
              ∙ sym (slash-cons dir rest),
        )
  ]
]

take_one : (rest : Bytes) → take 1 (b'/' ∷ rest) ≡ b'/' ∷ []
unfolding take
take_one rest = refl

Inside-in_subtree : (dir path : Bytes) → Inside dir path → in_subtree dir path ≡ true
unfolding in_subtree
Inside-in_subtree dir path (inl e) =
    let here : same path dir ≡ true = (same_iff path dir).1 e in ground arith
Inside-in_subtree dir path (inr (rest, e)) =
    let n = length dir in
    let whole : path ≡ dir ++ (b'/' ∷ rest) = e ∙ slash-cons dir rest in
    let longer : ltb n (length path) ≡ true =
      ground (arith, ap length whole, length-append dir (b'/' ∷ rest)) in
    let behind : drop n path ≡ b'/' ∷ rest = ap (drop n) whole ∙ drop-append dir (b'/' ∷ rest) in
    let slash : same (take 1 (drop n path)) (b'/' ∷ []) ≡ true =
      (same_iff _ (b'/' ∷ [])).1 (ap (take 1) behind ∙ take_one rest) in
    let front : same (take n path) dir ≡ true =
      (same_iff _ dir).1 (ap (take n) whole ∙ take-append dir (b'/' ∷ rest)) in
    ground arith

-- What a pattern stands for: itself; with "/**" at the end, a directory and all below it; with
-- another "*" at the end, every text that begins with what precedes it.
abbrev pub Stands : Bytes → Bytes → Type 0
Stands pattern path =
    (pattern ≡ path)
    ⊎ ((dir : Bytes) × (pattern ≡ dir ++ subtree) × Inside dir path)
    ⊎ ((¬ ((dir : Bytes) × (pattern ≡ dir ++ subtree)))
        × ((prefix : Bytes) × (pattern ≡ prefix ++ star) × Begins prefix path))

match_pattern-Stands :
    (pattern path : Bytes) → match_pattern pattern path ≡ true → Stands pattern path
unfolding match_pattern
match_pattern-Stands pattern path e = elim (Bool-cases (same pattern path)) [
  | inl equal ↦ inl ((same_iff pattern path).0 equal)
  | inr differ ↦ elim (Bool-cases (ends_in subtree pattern)) [
    | inl tree ↦
        let dir = without_end subtree pattern in
        let inside : in_subtree dir path ≡ true = ground arith in
        inr (inl (dir, ends_in-split pattern subtree tree, in_subtree-Inside dir path inside))
    | inr no_tree ↦
        let starred : ends_in star pattern ≡ true = ground arith in
        let prefix = without_end star pattern in
        let begins : has_prefix prefix path ≡ true = ground arith in
        inr (
          inr (
            λ (dir, d).
                let tree : ends_in subtree pattern ≡ true =
                  ap (ends_in subtree) d ∙ ends_in-append dir subtree in
                cc,
            (prefix, ends_in-split pattern star starred, (has_prefix_iff prefix path).0 begins),
          ))
  ]
]

Stands-match_pattern :
    (pattern path : Bytes) → Stands pattern path → match_pattern pattern path ≡ true
unfolding match_pattern
Stands-match_pattern pattern path (inl e) =
    let equal : same pattern path ≡ true = (same_iff pattern path).1 e in ground arith
Stands-match_pattern pattern path (inr (inl (dir, d, inside))) =
    let tree : ends_in subtree pattern ≡ true =
      ap (ends_in subtree) d ∙ ends_in-append dir subtree in
    let found : in_subtree (without_end subtree pattern) path ≡ true =
      ap (λ s. in_subtree (without_end subtree s) path) d
      ∙ ap (λ s. in_subtree s path) (without_end-append dir subtree)
      ∙ Inside-in_subtree dir path inside in
    ground arith
Stands-match_pattern pattern path (inr (inr (no_dir, (prefix, d, begins)))) =
    let starred : ends_in star pattern ≡ true = ap (ends_in star) d ∙ ends_in-append prefix star in
    let found : has_prefix (without_end star pattern) path ≡ true =
      ap (λ s. has_prefix (without_end star s) path) d
      ∙ ap (λ s. has_prefix s path) (without_end-append prefix star)
      ∙ (has_prefix_iff prefix path).1 begins in
    elim (Bool-cases (ends_in subtree pattern)) [
      | inl tree ↦ absurd (no_dir (without_end subtree pattern, ends_in-split pattern subtree tree))
      | inr no_tree ↦ ground arith
    ]

-- `matchPattern` accepts a path exactly if the pattern stands for it: they are equal; or the pattern
-- is a directory with "/**", and the path is the directory or goes on after it with a slash; or the
-- pattern ends in "*" otherwise, and the path begins with what precedes it.
pub match_pattern_iff :
    (pattern path : Bytes) → (match_pattern pattern path ≡ true) ↔ Stands pattern path
match_pattern_iff pattern path =
    (match_pattern-Stands pattern path, Stands-match_pattern pattern path)

-- A directory that has been approved with all below it also stands for what is reached from it by
-- "..": paths are compared as they are written.
pub match_pattern-parent :
    (dir rest : Bytes) → match_pattern (dir ++ subtree) (dir ++ (b'/' ∷ b'.' ∷ b'.' ∷ rest)) ≡ true
match_pattern-parent dir rest =
    (match_pattern_iff (dir ++ subtree) _).1
      (inr (inl (dir, refl, inr (b'.' ∷ b'.' ∷ rest, sym (slash-cons dir (b'.' ∷ b'.' ∷ rest))))))
