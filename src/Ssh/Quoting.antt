-- ===== src/Ssh/Quoting.antt =====
-- The quoting of paths in the commands of plugin/src/ssh.ts, against how a POSIX shell reads a word.
use Prim.Native.Char.{Char, code}
use mathlib.Core.Option
use text.Mathlib.TextEquality.{codes_equal}
use Prim.Native.Nat.{compare, Ordering}
use text.Mathlib.TextLemmas.{cons-append, nil-append, append-nil, append_assoc}
use opencode_remote_ssh.Base.{
  ℕ, ltb, sym, not, ◌&&◌, ◌||◌, String, ◌<>◌, ◌≡◌, refl, ◌≢◌, true, false, Option, none, some, Bool,
  Bool-cases, inl, inr, eqb, replace_quotes, arith, ap, ◌∙◌,
}
use opencode_remote_ssh.Ssh.Args.{escape_install, escape_hash, install_command}

-- Letters, digits, a slash, a point and a hyphen stand for themselves everywhere.
abbrev pub is_ordinary : ℕ → Bool
is_ordinary c =
    (ltb 0x60 c && ltb c 0x7b) || (ltb 0x40 c && ltb c 0x5b) || (ltb 0x2c c && ltb c 0x3a)

-- Every character of a text passes a test.
abbrev pub Every : (ℕ → Bool) → String → Type 0
Every test String.[] = Unit {0}
Every test (String.◌∷◌ c s) = (test (code c) ≡ true) × Every test s

abbrev pub is_no_quote : ℕ → Bool
is_no_quote c = not (eqb c b'\'')

-- How a shell removes the quotes of one word: outside of quotes and within single quotes. `none` is
-- a word that does not end. These are the rules of POSIX for a quote and a backslash.
pub record ShellWords : Type 0 where
  pub plain : String → Option String
  pub quoted : String → Option String
  pub plain_end : plain "" ≡ some ""
  pub plain_open : (s : String) → plain ("'" <> s) ≡ quoted s
  pub plain_escape : (s : String) → plain ("\\'" <> s) ≡ Option.map (λ r. "'" <> r) (plain s)
  pub plain_char :
      (c : Char) (s : String)
      → is_ordinary (code c) ≡ true
      → plain (String.◌∷◌ c s) ≡ Option.map (λ r. String.◌∷◌ c r) (plain s)
  pub quoted_end : quoted "" ≡ none
  pub quoted_close : (s : String) → quoted ("'" <> s) ≡ plain s
  pub quoted_char :
      (c : Char) (s : String)
      → code c ≢ b'\''
      → quoted (String.◌∷◌ c s) ≡ Option.map (λ r. String.◌∷◌ c r) (quoted s)

-- `by` a quote, `'\\''`, and a quote more: what a single quote becomes inside quotes.
close_escape_open : (x : String) → "'\\''" <> x ≡ "'" <> ("\\'" <> ("'" <> x))
close_escape_open x = append_assoc "'" "\\''" x ∙ ap (λ y. "'" <> y) (append_assoc "\\'" "'" x)

codes_match : (c : Char) → eqb (code c) b'\'' ≡ true → compare b'\'' (code c) ≡ Ordering.eq
codes_match c e = ground arith

quote-cons : (c : Char) (s : String) → eqb (code c) b'\'' ≡ true → "'" <> s ≡ String.◌∷◌ c s
quote-cons c s e =
    let q : Char = "'" in
    cons-append q String.[] s
    ∙ ap (λ r. String.◌∷◌ q r) (nil-append s)
    ∙ ap (λ d. String.◌∷◌ d s) (codes_equal q c (codes_match c e))

three_quotes : (x : String) → "'''" <> x ≡ "'" <> ("'" <> ("'" <> x))
three_quotes x = append_assoc "'" "''" x ∙ ap (λ y. "'" <> y) (append_assoc "'" "'" x)

-- A text without quotes is left as it is.
replace-no_quote :
    (by a y : String) → Every is_no_quote a → replace_quotes by (a <> y) ≡ a <> replace_quotes by y
unfolding replace_quotes
replace-no_quote by String.[] y h =
    ap (replace_quotes by) (nil-append y) ∙ sym (nil-append (replace_quotes by y))
replace-no_quote by (String.◌∷◌ c a) y (no_quote, h) =
    let plain : eqb (code c) b'\'' ≡ false = ground arith in
    ap (replace_quotes by) (cons-append c a y)
    ∙ rw plain (
        ap (λ r. String.◌∷◌ c r) (replace-no_quote by a y h)
        ∙ sym (cons-append c a (replace_quotes by y)))

ordinary-Every : (b : String) → Every is_ordinary b → Every is_no_quote b
ordinary-Every String.[] h = tt
ordinary-Every (String.◌∷◌ c b) (ordinary, h) = (ground arith, ordinary-Every b h)

replace-ordinary : (by b : String) → Every is_ordinary b → replace_quotes by b ≡ b
unfolding replace_quotes
replace-ordinary by b h =
    ap (replace_quotes by) (sym (append-nil b))
    ∙ replace-no_quote by b "" (ordinary-Every b h)
    ∙ append-nil b

replace-quote : (by b : String) → replace_quotes by ("'" <> b) ≡ by <> replace_quotes by b
unfolding replace_quotes
replace-quote by b =
    let q : Char = "'" in
    ap (replace_quotes by) (cons-append q "" b ∙ ap (λ r. String.◌∷◌ q r) (nil-append b))

replace-one :
    (a b : String)
    → Every is_no_quote a
    → Every is_ordinary b
    → replace_quotes "'''" (a <> ("'" <> b)) ≡ a <> ("'''" <> b)
replace-one a b ha hb =
    replace-no_quote "'''" a ("'" <> b) ha
    ∙ ap (λ r. a <> r) (replace-quote "'''" b ∙ ap (λ r. "'''" <> r) (replace-ordinary "'''" b hb))

-- What follows the first two words of the install command.
abbrev pub after_mv : String → String → String
after_mv temp remote =
    escape_install temp
    <> ("' '" <> (escape_install remote <> ("' && chmod +x '" <> (escape_install remote <> "'"))))

abbrev pub argument : String → String → String
argument temp remote =
    "'" <> (escape_install temp <> ("'" <> (" && mv -f " <> ("'" <> after_mv temp remote))))

install_command-argument :
    (temp remote : String) → install_command temp remote ≡ "chmod +x " <> argument temp remote
unfolding install_command
install_command-argument temp remote =
    let rest = after_mv temp remote in
    append_assoc "chmod +x " "'" (escape_install temp <> ("' && mv -f '" <> rest))
    ∙ ap (λ y. "chmod +x " <> ("'" <> (escape_install temp <> y)))
        (append_assoc "'" " && mv -f '" rest
          ∙ ap (λ y. "'" <> y) (append_assoc " && mv -f " "'" rest))

module _ (shell : ShellWords) where
  open shell use {
    plain, quoted, plain_end, plain_open, plain_char, plain_escape, quoted_end, quoted_close,
    quoted_char,
  }

  quoted-escape : (s : String) → quoted (replace_quotes "'\\''" s <> "'") ≡ some s
  unfolding replace_quotes
  quoted-escape String.[] = quoted_close "" ∙ plain_end
  quoted-escape (String.◌∷◌ c s) = elim (Bool-cases (eqb (code c) b'\'')) [
    | inl quote ↦ rw quote (
        ap quoted (append_assoc "'\\''" (replace_quotes "'\\''" s) "'")
        ∙ ap quoted (close_escape_open (replace_quotes "'\\''" s <> "'"))
        ∙ quoted_close ("\\'" <> ("'" <> (replace_quotes "'\\''" s <> "'")))
        ∙ plain_escape ("'" <> (replace_quotes "'\\''" s <> "'"))
        ∙ ap (Option.map (λ r. "'" <> r)) (plain_open (replace_quotes "'\\''" s <> "'"))
        ∙ ap (Option.map (λ r. "'" <> r)) (quoted-escape s)
        ∙ ap some (quote-cons c s quote))
    | inr other ↦ rw other (
        ap quoted (cons-append c (replace_quotes "'\\''" s) "'")
        ∙ quoted_char c (replace_quotes "'\\''" s <> "'") (λ e. ground arith)
        ∙ ap (Option.map (λ r. String.◌∷◌ c r)) (quoted-escape s))
  ]

  -- The shell reads a path between single quotes, escaped as `remoteStubHash` does it, as that path.
  pub plain-escape_hash : (path : String) → plain ("'" <> (escape_hash path <> "'")) ≡ some path
  unfolding escape_hash
  plain-escape_hash path = plain_open (replace_quotes "'\\''" path <> "'") ∙ quoted-escape path

  -- Within quotes and outside of them, a text in front is read as it is.
  abbrev pub behind : String → Option String → Option String
  behind a = Option.map (λ r. a <> r)

  behind-nil : (o : Option String) → o ≡ behind "" o
  behind-nil none = refl
  behind-nil (some r) = ap some (sym (nil-append r))

  behind-cons :
      (c : Char) (a : String) (o : Option String)
      → Option.map (λ r. String.◌∷◌ c r) (behind a o) ≡ behind (String.◌∷◌ c a) o
  behind-cons c a none = refl
  behind-cons c a (some r) = ap some (sym (cons-append c a r))

  quoted-behind : (a x : String) → Every is_no_quote a → quoted (a <> x) ≡ behind a (quoted x)
  quoted-behind String.[] x h = ap quoted (nil-append x) ∙ behind-nil (quoted x)
  quoted-behind (String.◌∷◌ c a) x (no_quote, h) =
      ap quoted (cons-append c a x)
      ∙ quoted_char c (a <> x) (λ q. ground arith)
      ∙ ap (Option.map (λ r. String.◌∷◌ c r)) (quoted-behind a x h)
      ∙ behind-cons c a (quoted x)

  plain-behind : (b x : String) → Every is_ordinary b → plain (b <> x) ≡ behind b (plain x)
  plain-behind String.[] x h = ap plain (nil-append x) ∙ behind-nil (plain x)
  plain-behind (String.◌∷◌ c b) x (ordinary, h) =
      ap plain (cons-append c b x)
      ∙ plain_char c (b <> x) ordinary
      ∙ ap (Option.map (λ r. String.◌∷◌ c r)) (plain-behind b x h)
      ∙ behind-cons c b (plain x)

  -- Where a path has one quote and goes on after it with letters, digits, slashes, points and hyphens,
  -- and it is put between single quotes in a command, escaped as `installStub` does it: the
  -- shell reads the path without its quote, and what comes after the path in the command is
  -- read as quoted text of the same word, up to the next quote.
  pub plain-escape_install :
      (a b rest : String)
      → Every is_no_quote a
      → Every is_ordinary b
      → plain ("'" <> (escape_install (a <> ("'" <> b)) <> ("'" <> rest)))
        ≡ behind a (behind b (quoted rest))
  unfolding escape_install
  plain-escape_install a b rest ha hb =
      let end = "'" <> rest in
      plain_open (replace_quotes "'''" (a <> ("'" <> b)) <> end)
      ∙ ap (λ y. quoted (y <> end)) (replace-one a b ha hb)
      ∙ ap quoted (append_assoc a ("'''" <> b) end)
      ∙ quoted-behind a (("'''" <> b) <> end) ha
      ∙ ap (behind a) (
          ap quoted (append_assoc "'''" b end)
          ∙ ap quoted (three_quotes (b <> end))
          ∙ quoted_close ("'" <> ("'" <> (b <> end)))
          ∙ plain_open ("'" <> (b <> end))
          ∙ quoted_close (b <> end)
          ∙ plain-behind b end hb
          ∙ ap (behind b) (plain_open rest))

  -- In the command of `installStub`, where the path of the uploaded file has one quote and goes on after it
  -- with letters, digits, slashes, points and hyphens: the first argument of `chmod +x` does not
  -- end with the path, but is the path without its quote, the text " && mv -f ", and what follows.
  pub argument-misread :
      (a b remote : String)
      → Every is_no_quote a
      → Every is_ordinary b
      → let temp = a <> ("'" <> b) in
        (install_command temp remote ≡ "chmod +x " <> argument temp remote)
        × (plain (argument temp remote)
            ≡ behind a (behind b (behind " && mv -f " (plain (after_mv temp remote)))))
  argument-misread a b remote ha hb =
      let temp = a <> ("'" <> b) in
      let end = "'" <> after_mv temp remote in
      (
        install_command-argument temp remote,
        plain-escape_install a b (" && mv -f " <> end) ha hb
            ∙ ap (λ o. behind a (behind b o))
                (quoted-behind " && mv -f " end (
                  refl,
                  (refl, (refl, (refl, (refl, (refl, (refl, (refl, (refl, (refl, tt))))))))),
                )
                  ∙ ap (behind " && mv -f ") (quoted_close (after_mv temp remote))),
      )
