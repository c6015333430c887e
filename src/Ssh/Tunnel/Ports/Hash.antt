-- ===== src/Ssh/Tunnel/Ports/Hash.antt =====
-- The hash of `allocateInitialLocalPort` (plugin/src/ssh.ts) without the wrap in its loop.
use native.Mathlib.Nat.{pow-suc}
use opencode_remote_ssh.Base.{ℕ, suc, ◌+◌, ◌*◌, ◌%◌, ◌^◌, String, ◌<>◌, ◌≡◌, arith, ap, sym, ◌∙◌}
use opencode_remote_ssh.Config.{ResolvedPluginConfig}
use opencode_remote_ssh.Ssh.Args.{
  char_code, range_start, span, hash_from, allocate_initial_local_port,
}

-- The number of characters.
size : String → ℕ
size String.[] = 0
size (String.◌∷◌ c s) = suc (size s)

-- The characters as the digits of a number to the base 31.
pub to_base_31 : String → ℕ
unfolding size
to_base_31 String.[] = 0
to_base_31 (String.◌∷◌ c s) = char_code c * 31 ^ size s + to_base_31 s

spread : (h c p w : ℕ) → (h * 31 + c) * p + w ≡ h * (p * 31) + (c * p + w)
spread h c p w = omega arith

zero-term : (p w : ℕ) → 0 * p + w ≡ w
zero-term p w = omega arith

wrap : (h c : ℕ) → (h % 4294967296 * 31 + c) % 4294967296 ≡ (h * 31 + c) % 4294967296
wrap h c = omega arith

hash_from-mod :
    (h : ℕ) (s : String) → hash_from (h % 2 ^ 32) s ≡ (h * 31 ^ size s + to_base_31 s) % 2 ^ 32
unfolding hash_from size to_base_31
hash_from-mod h String.[] = ap (λ n. n % 2 ^ 32) (omega arith)
hash_from-mod h (String.◌∷◌ c s) =
    ap (λ n. hash_from n s) (wrap h (char_code c))
    ∙ hash_from-mod (h * 31 + char_code c) s
    ∙ ap (λ n. n % 2 ^ 32)
        (spread h (char_code c) (31 ^ size s) (to_base_31 s)
          ∙ ap (λ p. h * p + (char_code c * 31 ^ size s + to_base_31 s))
              (sym (pow-suc 31 (size s))))

-- The port that is tried first comes from the characters of the workspace's id, a colon and the
-- host, read as the digits of a number to the base 31, modulo 2 ^ 32: to wrap around in every round
-- of the loop is the same as to do it once at the end.
pub allocate_initial_local_port-base_31 :
    (config : ResolvedPluginConfig) (workspace_id host : String)
    → allocate_initial_local_port config workspace_id host
      ≡ range_start config + to_base_31 (workspace_id <> ":" <> host) % 2 ^ 32 % span config
unfolding allocate_initial_local_port
allocate_initial_local_port-base_31 config workspace_id host =
    let seed = workspace_id <> ":" <> host in
    ap (λ n. range_start config + n % span config)
      (hash_from-mod 0 seed ∙ ap (λ n. n % 2 ^ 32) (zero-term (31 ^ size seed) (to_base_31 seed)))
