-- ===== src/Base/Text.antt =====
-- String methods: decimal numbers, prefixes, trimming and replacing by regular expressions.
use Prim.Native.Nat.{ℕ, zero, suc, ◌+◌, ◌/◌, ◌%◌}
use Prim.Native.Char.{Char, code}
use Prim.Native.String.{String, ◌++◌ as ◌<>◌}
use mathlib.Core.Path.{◌≡◌, refl}
use mathlib.Core.Bool.{Bool, true, false, ◌&&◌, ◌||◌}
use mathlib.Core.Option.{Option, none, some}
use mathlib.Core.List.{List, [], ◌∷◌}
use opencode_remote_ssh.Base.Tests.{if◌then◌else◌, ltb, eqb}

abbrev digit : ℕ → String
digit d =
    if eqb d 0
    then "0"
    else if eqb d 1
    then "1"
    else if eqb d 2
    then "2"
    else if eqb d 3
    then "3"
    else if eqb d 4
    then "4"
    else if eqb d 5
    then "5"
    else if eqb d 6
    then "6"
    else if eqb d 7
    then "7"
    else if eqb d 8
    then "8"
    else "9"

-- A number has fewer digits than its value plus one, which is the fuel.
decimal_from : ℕ → ℕ → String
decimal_from zero n = ""
decimal_from (suc fuel) n =
    let front = decimal_from fuel (n / 10) in (if ltb n 10 then "" else front) <> digit (n % 10)

-- `String(n)`
unfoldable pub show_nat : ℕ → String
unfolding decimal_from
show_nat n = decimal_from (n + 1) n

-- `texts.join(separator)`
unfoldable pub join : String → List String → String
join separator [] = ""
join separator (s ∷ []) = s
join separator (s ∷ t ∷ rest) = s <> separator <> join separator (t ∷ rest)

-- `s.startsWith("~/")`, and then `s.slice(2)`.
unfoldable pub after_tilde : String → Option String
after_tilde String.[] = none
after_tilde (String.◌∷◌ c String.[]) = none
after_tilde (String.◌∷◌ c (String.◌∷◌ d s)) =
    if eqb (code c) b'~' && eqb (code d) b'/' then some s else none

-- What JavaScript's `\s` and `trim` take for white space.
unfoldable pub is_space : ℕ → Bool
is_space c =
    (ltb 8 c && ltb c 14)
    || eqb c 32
    || eqb c 0xa0
    || eqb c 0x1680
    || (ltb 0x1fff c && ltb c 0x200b)
    || eqb c 0x2028
    || eqb c 0x2029
    || eqb c 0x202f
    || eqb c 0x205f
    || eqb c 0x3000
    || eqb c 0xfeff

trim_start : String → String
unfolding is_space
trim_start String.[] = String.[]
trim_start (String.◌∷◌ c s) =
    let rest = trim_start s in if is_space (code c) then rest else String.◌∷◌ c s

-- A character before a trimmed rest: white space before nothing goes too.
put_back : Char → String → String
unfolding is_space
put_back c String.[] = if is_space (code c) then String.[] else String.◌∷◌ c String.[]
put_back c (String.◌∷◌ d s) = String.◌∷◌ c (String.◌∷◌ d s)

trim_end : String → String
unfolding put_back
trim_end String.[] = String.[]
trim_end (String.◌∷◌ c s) = put_back c (trim_end s)

unfoldable pub trim : String → String
unfolding trim_start trim_end
trim s = trim_end (trim_start s)

-- `s.replace(/\s+/g, "-")`; the flag is set inside a run of white space.
dashes : Bool → String → String
unfolding is_space
dashes within String.[] = String.[]
dashes within (String.◌∷◌ c s) =
    let run = dashes true s in
    let plain = dashes false s in
    if is_space (code c) then (if within then run else "-" <> run) else String.◌∷◌ c plain

unfoldable pub dash_spaces : String → String
unfolding dashes
dash_spaces s = dashes false s

-- `s.replace(/'/g, by)`
unfoldable pub replace_quotes : String → String → String
replace_quotes by String.[] = String.[]
replace_quotes by (String.◌∷◌ c s) =
    let rest = replace_quotes by s in if eqb (code c) b'\'' then by <> rest else String.◌∷◌ c rest

show_nat_run : show_nat 39217 <> trim "  a b " <> dash_spaces "x  y" ≡ "39217a bx-y"
unfolding show_nat trim dash_spaces
show_nat_run = refl
