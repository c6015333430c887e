-- ===== src/Stub/Patterns.antt =====
-- stub/internal/state/state.go, `matchPattern`. A Go string is the list of its bytes.
pub mod Meaning
use opencode_remote_ssh.Base.{
  ℕ, ◌-◌, Bool, true, false, ◌&&◌, ◌||◌, List, [], ◌∷◌, ◌++◌, length, if◌then◌else◌, eqb, ltb, zero,
  suc, not,
}

abbrev pub Bytes : Type 0
Bytes = List ℕ

-- `s[:n]` and `s[n:]`, for `n` up to the length.
unfoldable pub take : ℕ → Bytes → Bytes
take zero s = []
take (suc n) [] = []
take (suc n) (b ∷ s) = b ∷ take n s

unfoldable pub drop : ℕ → Bytes → Bytes
drop zero s = s
drop (suc n) [] = []
drop (suc n) (b ∷ s) = drop n s

unfoldable pub same : Bytes → Bytes → Bool
same [] [] = true
same [] (c ∷ t) = false
same (b ∷ s) [] = false
same (b ∷ s) (c ∷ t) = eqb b c && same s t

-- "/**" and "*"
abbrev pub subtree : Bytes
subtree = b'/' ∷ b'*' ∷ b'*' ∷ []

abbrev pub star : Bytes
star = b'*' ∷ []

-- `len(s) >= n && s[len(s)-n:] == suffix`
abbrev pub ends_in : Bytes → Bytes → Bool
ends_in suffix s =
    not (ltb (length s) (length suffix)) && same (drop (length s - length suffix) s) suffix

abbrev pub without_end : Bytes → Bytes → Bytes
without_end suffix s = take (length s - length suffix) s

-- `path[len(prefix)] == '/'`
abbrev pub slash_at : ℕ → Bytes → Bool
slash_at n path = same (take 1 (drop n path)) (b'/' ∷ [])

unfoldable pub in_subtree : Bytes → Bytes → Bool
unfolding same take drop
in_subtree prefix path =
    if same path prefix || same path (prefix ++ (b'/' ∷ []))
    then true
    else if ltb (length prefix) (length path) && slash_at (length prefix) path
    then same (take (length prefix) path) prefix
    else false

unfoldable pub has_prefix : Bytes → Bytes → Bool
unfolding same take
has_prefix prefix path =
    not (ltb (length path) (length prefix)) && same (take (length prefix) path) prefix

unfoldable pub match_pattern : Bytes → Bytes → Bool
unfolding in_subtree has_prefix
match_pattern pattern path =
    if same pattern path
    then true
    else if ends_in subtree pattern
    then in_subtree (without_end subtree pattern) path
    else if ends_in star pattern
    then has_prefix (without_end star pattern) path
    else false
