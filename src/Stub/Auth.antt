-- ===== src/Stub/Auth.antt =====
-- stub/internal/auth/auth.go, `Require`. A Go string is the list of its bytes.
pub mod Bearer
use opencode_remote_ssh.Base.{
  ℕ, ◌+◌, Bool, ◌&&◌, Option, none, some, List, [], ◌∷◌, if◌then◌else◌, eqb, ltb, not, map,
}
use opencode_remote_ssh.Stub.Patterns.{Bytes, same}

-- `strings.ToLower`, which changes other letters too, but none of them to a letter of "bearer".
unfoldable pub lower : Bytes → Bytes
lower [] = []
lower (b ∷ s) = (if not (ltb b b'A') && not (ltb b'Z' b) then b + 32 else b) ∷ lower s

-- `strings.SplitN(s, " ", 2)`: what stands before and after the first space, if there is one.
unfoldable pub split_space : Bytes → Option (Bytes × Bytes)
split_space [] = none
split_space (b ∷ s) =
    let rest = split_space s in
    if eqb b b' '
    then some ([], s)
    else elim rest [ none ↦ none | some (front, back) ↦ some (b ∷ front, back) ]

abbrev pub bearer : Bytes
bearer = b'b' ∷ b'e' ∷ b'a' ∷ b'r' ∷ b'e' ∷ b'r' ∷ []

-- The three errors, all with status 401, or the request goes on with the token.
pub data Verdict : Type 0 where
  missing_header malformed_header invalid_token : Verdict
  passed : Bytes → Verdict

abbrev pub check_token : Bytes → Option (Bytes × Bytes) → Verdict
check_token token none = malformed_header
check_token token (some (scheme, given)) =
    if same (lower scheme) bearer
    then (if same given token then passed given else invalid_token)
    else malformed_header

-- A header that is not set reads as the empty one.
unfoldable pub require : Bytes → Bytes → Verdict
require token [] = missing_header
require token (b ∷ header) = check_token token (split_space (b ∷ header))
