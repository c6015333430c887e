-- ===== src/Tests/Shell.antt =====
-- A reader of shell words, and paths with and without a quote (plugin/src/ssh.ts).
use Prim.Native.Char.{Char, code}
use mathlib.Core.Option
use mathlib.Core.Path.{fun_ext}
use package.text.Mathlib.TextLemmas.{cons-append, nil-append}
use opencode_remote_ssh.Base.{
  replace_quotes, ℕ, Bool, ◌&&◌, String, ◌<>◌, ◌≡◌, refl, Option, none, some, eqb, if◌then◌else◌,
  arith, ap, sym, ◌∙◌, ◌≢◌, true,
}
use opencode_remote_ssh.Ssh.Args.{escape_install, escape_hash, install_command}
use opencode_remote_ssh.Ssh.Quoting.{
  ShellWords, is_ordinary, Every, is_no_quote, behind, argument, after_mv, plain-escape_hash,
  argument-misread,
}

-- Outside of quotes, within them, and after a backslash.
data Mode : Type 0 where
  outside inside escaped : Mode

read_word : Mode → String → Option String
read_word outside String.[] = some ""
read_word inside String.[] = none
read_word escaped String.[] = none
read_word outside (String.◌∷◌ c s) =
    let closed = read_word inside s in
    let next = read_word escaped s in
    let rest = Option.map (λ r. String.◌∷◌ c r) (read_word outside s) in
    if eqb (code c) b'\'' then closed else if eqb (code c) b'\\' then next else rest
read_word inside (String.◌∷◌ c s) =
    let opened = read_word outside s in
    let rest = Option.map (λ r. String.◌∷◌ c r) (read_word inside s) in
    if eqb (code c) b'\'' then opened else rest
read_word escaped (String.◌∷◌ c s) = Option.map (λ r. String.◌∷◌ c r) (read_word outside s)

push : (q : Char) (s : String) → (String.◌∷◌ q String.[]) <> s ≡ String.◌∷◌ q s
push q s = cons-append q "" s ∙ ap (λ r. String.◌∷◌ q r) (nil-append s)

push_escape : (s : String) → "\\'" <> s ≡ String.◌∷◌ "\\" (String.◌∷◌ "'" s)
push_escape s = cons-append "\\" "'" s ∙ ap (λ r. String.◌∷◌ "\\" r) (push "'" s)

read_outside :
    (c : Char) (s : String)
    → is_ordinary (code c) ≡ true
    → read_word outside (String.◌∷◌ c s) ≡ Option.map (λ r. String.◌∷◌ c r) (read_word outside s)
unfolding read_word
read_outside c s h = ground arith

read_inside :
    (c : Char) (s : String)
    → code c ≢ b'\''
    → read_word inside (String.◌∷◌ c s) ≡ Option.map (λ r. String.◌∷◌ c r) (read_word inside s)
unfolding read_word
read_inside c s h = ground arith

abbrev shell : ShellWords
unfolding read_word
shell = record {
  plain = read_word outside;
  quoted = read_word inside;
  plain_end = refl;
  plain_open = λ s. ap (read_word outside) (push "'" s);
  plain_escape = λ s.
      ap (read_word outside) (push_escape s)
      ∙ ap (λ f. Option.map f (read_word outside s)) (fun_ext (λ r. sym (push "'" r)));
  plain_char = read_outside;
  quoted_end = refl;
  quoted_close = λ s. ap (read_word inside) (push "'" s);
  quoted_char = read_inside;
}

plain-escape_hash_example :
    shell.plain ("'" <> (escape_hash "/home/o'neil/bin" <> "'")) ≡ some "/home/o'neil/bin"
plain-escape_hash_example = plain-escape_hash shell "/home/o'neil/bin"

every : (ℕ → Bool) → String → Bool
every test String.[] = true
every test (String.◌∷◌ c s) = test (code c) && every test s

every-Every : (test : ℕ → Bool) (s : String) → every test s ≡ true → Every test s
unfolding every
every-Every test String.[] h = tt
every-Every test (String.◌∷◌ c s) h = (ground arith, every-Every test s (ground arith))

-- The upload below an install root with a quote.
abbrev tail : String
tail = "neil/bin/opencode-remote-stub.upload-5-7"

abbrev remote_stub : String
remote_stub = "/srv/o'neil/bin/opencode-remote-stub"

abbrev temp_stub : String
temp_stub = "/srv/o'neil/bin/opencode-remote-stub.upload-5-7"

before_quote : Every is_no_quote "/srv/o"
unfolding every
before_quote = every-Every is_no_quote "/srv/o" refl

behind_quote : Every is_ordinary tail
unfolding every
behind_quote = every-Every is_ordinary tail refl

argument-misread_example :
    (install_command temp_stub remote_stub ≡ "chmod +x " <> argument temp_stub remote_stub)
    × (shell.plain (argument temp_stub remote_stub)
        ≡ behind shell "/srv/o" (
            behind shell tail
              (behind shell " && mv -f " (shell.plain (after_mv temp_stub remote_stub)))))
argument-misread_example =
    argument-misread shell "/srv/o" tail remote_stub before_quote behind_quote

-- A reader for which blanks are no end of a word shows how far the first argument goes.
misread :
    shell.plain (argument "/o'neil.tmp" "/o'neil")
    ≡ some "/oneil.tmp && mv -f /oneil.tmp /oneil && chmod +x /oneil"
unfolding read_word escape_install replace_quotes
misread = refl
