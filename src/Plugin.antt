-- ===== src/Plugin.antt =====
-- plugin/src/index.ts: the plugin's state, the workspace adapter and the tools. The state is the
-- lease map, the bindings and the trace of what was asked of the surroundings; `config` is set once,
-- when the plugin starts. One call of a tool or of the adapter runs at a time.
pub mod Rules
pub mod Consistent
pub mod Configured
pub mod Dropped
pub mod Unsaved
pub mod Disconnected
pub mod Interleaved
pub mod Reach
pub mod Remote
pub mod Connect
pub mod Adapter
pub mod Tools
use opencode_remote_ssh.Base.{ℕ, String, Bool, true, false, Option, none, some, List}
use opencode_remote_ssh.Types.{ResolvedHost, WorkspaceBinding, Error, Result, ok, err}
use opencode_remote_ssh.Config.{ResolvedPluginConfig}
use opencode_remote_ssh.Leases.{Leases}
use opencode_remote_ssh.Provider
use opencode_remote_ssh.Provider.{HostSelectionRequest}
use opencode_remote_ssh.State
use opencode_remote_ssh.State.{Bindings}
use opencode_remote_ssh.Effects
use opencode_remote_ssh.Effects.{Env, Trace, Io}

pub record Plugin : Type 0 where
  pub leases : Leases
  pub bindings : Bindings
  pub trace : Trace

-- A computation on the plugin's state that may throw; what was changed before a throw stays changed.
abbrev pub Action : Type 0 → Type 0
Action A = Plugin → Result A × Plugin

module _ {A : Type 0} where
  abbrev pub pure : A → Action A
  pure a p = (ok a, p)

  abbrev pub throw : Error → Action A
  throw e p = (err e, p)

  abbrev pub try_catch : Action A → (Error → Action A) → Action A
  try_catch m h p = let (r, p') = m p in elim r [ ok a ↦ (ok a, p') | err e ↦ h e p' ]

  -- A computation that touches neither the leases nor the bindings.
  abbrev pub lift : Io A → Action A
  lift m p = let (r, t) = m p.trace in (r, record p { trace = t })

infixl 5 ◌>>=◌ ◌>>◌
abbrev pub ◌>>=◌ : {A B : Type 0} → Action A → (A → Action B) → Action B
◌>>=◌ m f p = let (r, p') = m p in elim r [ ok a ↦ f a p' | err e ↦ (err e, p') ]

abbrev pub ◌>>◌ : {A B : Type 0} → Action A → Action B → Action B
m >> k = m >>= λ _. k

abbrev pub list_bindings : Action (List WorkspaceBinding)
list_bindings p = (ok (State.list p.bindings), p)

abbrev pub get_binding : String → Action (Option WorkspaceBinding)
get_binding workspace_id p = (ok (State.get p.bindings workspace_id), p)

abbrev pub release : String → String → Action (Unit {0})
release host workspace_id p =
    (ok tt, record p { leases = Provider.release p.leases host workspace_id })

module _ (env : Env) where
  -- `Date.now()`
  abbrev pub now : Action ℕ
  now p = (ok (env.clock p.trace), p)

  -- `this.save()` after a change of the map: the map stays changed if the write throws.
  abbrev pub save : Bindings → Action (Unit {0})
  save bindings p =
      lift (Effects.write_state env (State.save bindings)) (record p { bindings = bindings })

  unfoldable pub set_binding : WorkspaceBinding → Action (Unit {0})
  set_binding b p = save (State.set p.bindings b) p

  unfoldable pub replace_binding : WorkspaceBinding → Action (Unit {0})
  replace_binding b p = save (State.replace p.bindings b) p

  unfoldable pub delete_binding : String → Action (Unit {0})
  delete_binding workspace_id p = save (State.delete p.bindings workspace_id) p

  module _ (config : ResolvedPluginConfig) where
    -- `providers.acquireResolved`
    unfoldable pub acquire_resolved : HostSelectionRequest → String → Action ResolvedHost
    acquire_resolved request workspace_id p =
        let (r, leases) =
          Provider.acquire_resolved config p.leases request workspace_id (env.clock p.trace) in
        (r, record p { leases = leases })
