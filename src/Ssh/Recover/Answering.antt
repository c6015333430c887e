-- ===== src/Ssh/Recover/Answering.antt =====
-- A binding that has been recovered answers (plugin/src/ssh.ts, `ensureRecoveredBinding`).
use opencode_remote_ssh.Base.{ℕ, String, ◌≡◌, ◌⊎◌, true, some, ◌∷◌}
use opencode_remote_ssh.Types.{ResolvedHost, WorkspaceBinding, ready, Result}
use opencode_remote_ssh.Config.{ResolvedPluginConfig}
use opencode_remote_ssh.Effects.{Env, Trace, IsSteady, Request, fetched, is_success}
use opencode_remote_ssh.Effects.Returns.{Returns}
use opencode_remote_ssh.Ssh.Probe.{health_request}
use opencode_remote_ssh.Ssh.Probe.Waiting.{passes}
use opencode_remote_ssh.Ssh.Tunnel.{Tunnel}

-- The last that has been done is a health check with the token at the port, which succeeded.
abbrev pub Heard : Env → ℕ → String → Trace → Type 0
Heard env port token v =
    (u : Trace) × (passes is_success (env.fetch u (health_request port (some token))) ≡ true)
    × (v ≡ fetched (health_request port (some token)) ∷ u)

-- The old binding as it was, or with the port and the process of a new tunnel and ready; and its
-- stub has just answered at its port.
pub record IsBack (env : Env) (b r : WorkspaceBinding) (v : Trace) : Type 0 where
  pub kept :
      (r ≡ b)
      ⊎ (r ≡ record b { local_port = r.local_port; tunnel_pid = r.tunnel_pid; status = ready })
  pub heard : Heard env r.local_port b.token v

module _ (env : Env) (steady : IsSteady env) (config : ResolvedPluginConfig) (b : WorkspaceBinding)
    (target : ResolvedHost) where
  abbrev check : Request
  check = health_request b.local_port (some b.token)

  abbrev moved : Tunnel → WorkspaceBinding
  moved tunnel = record b {
    local_port = tunnel.local_port;
    tunnel_pid = tunnel.tunnel_pid;
    status = ready;
  }

  abbrev IsReturned : Result WorkspaceBinding × Trace → Type 0
  IsReturned x = Returns (IsBack env b) x
