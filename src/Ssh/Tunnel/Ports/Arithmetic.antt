-- ===== src/Ssh/Tunnel/Ports/Arithmetic.antt =====
-- Walking round the configured range of ports (plugin/src/ssh.ts).
use native.Mathlib.Nat.{mod-lt, mod-eq_of_lt, add-mod_left}
use opencode_remote_ssh.Base.{ℕ, ◌+◌, ◌-◌, ◌%◌, ◌≤◌, ◌<◌, ◌≡◌, arith, ◌∙◌}
use native.Mathlib.Decide.{dec_le}
use opencode_remote_ssh.Base.{String, ◌<>◌}
use opencode_remote_ssh.Config.{ResolvedPluginConfig}
use opencode_remote_ssh.Ssh.Args.{
  range_start, range_end, span, allocate_initial_local_port, hash_from,
}
use opencode_remote_ssh.Ssh.Tunnel.{port_at}

-- The attempt that reaches position `p` of `w`, from offset `off`.
reaches : (w off p : ℕ) → off < w → p < w → (k : ℕ) × (k < w) × ((off + k) % w ≡ p)
reaches w off p ho hp = elim (dec_le off p) [
  | yes ahead ↦
      (p - off, omega arith, let e : off + (p - off) ≡ p = omega arith in rw e (mod-eq_of_lt hp))
  | no behind ↦ (
    w + p - off,
    omega arith,
    let e : off + (w + p - off) ≡ w + p = omega arith in rw e (add-mod_left w p ∙ mod-eq_of_lt hp),
  )
]

module _ (config : ResolvedPluginConfig) (ordered : range_start config ≤ range_end config) where
  -- Where the configured range is not empty, the port that the hash of a workspace and a host selects lies in it.
  pub allocate_initial_local_port_bounds :
      (workspace_id host : String)
      → (range_start config ≤ allocate_initial_local_port config workspace_id host)
        × (allocate_initial_local_port config workspace_id host ≤ range_end config)
  unfolding allocate_initial_local_port
  allocate_initial_local_port_bounds workspace_id host =
      let h = hash_from 0 (workspace_id <> ":" <> host) in
      omega (arith, mod-lt h {m = span config} (omega arith))

  pub port_at_bounds :
      (initial k : ℕ)
      → (range_start config ≤ port_at config initial k)
        × (port_at config initial k ≤ range_end config)
  port_at_bounds initial k =
      omega (arith, mod-lt (initial - range_start config + k) {m = span config} (omega arith))

  pub port_at_covers :
      (workspace_id host : String) (port : ℕ)
      → range_start config ≤ port
      → port ≤ range_end config
      → (k : ℕ) × (k < span config)
        × (port_at config (allocate_initial_local_port config workspace_id host) k ≡ port)
  port_at_covers workspace_id host port lo hi =
      let (from, to) = allocate_initial_local_port_bounds workspace_id host in
      let (k, short, e) =
        reaches (span config)
          (allocate_initial_local_port config workspace_id host - range_start config)
          (port - range_start config) (omega arith) (omega arith) in
      (k, short, omega arith)
