-- ===== src/Plugin/Consistent/Keeping.antt =====
-- Steps of plugin/src/index.ts that the invariant survives: storing, deleting, acquiring, recovering.
use opencode_remote_ssh.Base.{
  String, ◌≡◌, refl, ◌≢◌, inl, inr, Option, some, lookup, insert, erase, ap, subst, sym, ◌∙◌,
}
use opencode_remote_ssh.Types.{exclusive, ResolvedHost, Result, ok, err, WorkspaceBinding}
use opencode_remote_ssh.Config.{ResolvedPluginConfig}
use opencode_remote_ssh.Leases
use opencode_remote_ssh.Leases.{Leases}
use opencode_remote_ssh.Leases.Holding.{holder}
use opencode_remote_ssh.Provider
use opencode_remote_ssh.Provider.{HostSelectionRequest}
use opencode_remote_ssh.Provider.Acquire.{acquire_resolved-keeps, acquire_resolved-takes}
use opencode_remote_ssh.State
use opencode_remote_ssh.State.{Bindings}
use opencode_remote_ssh.Effects.{Env, write_state}
use opencode_remote_ssh.Ssh.Recover.{ensure_recovered_binding, close_recovered_binding}
use opencode_remote_ssh.Ssh.Recover.Identity.{IsRecovery, ensure_recovered_binding-IsRecovery}
use opencode_remote_ssh.Plugin.{
  Plugin, Action, lift, ◌>>=◌, ◌>>◌, release, replace_binding, delete_binding, acquire_resolved,
}
use opencode_remote_ssh.Plugin.Rules.{
  Ends, Ends-weaken, Always, bind-Ends, bind-Always, lift-Ends, lift-Returns,
}
use opencode_remote_ssh.Plugin.Remote.{remove_remote_workspace}
use opencode_remote_ssh.Plugin.Connect.{is_removed, remove_binding}
use opencode_remote_ssh.Plugin.Consistent.{
  IsBacked, Sound, Frame, Sound-grow, Sound-erase, Sound-drop, Sound-insert, Frame-erase,
  Frame-insert,
}

-- Sound, and nothing has changed for other workspaces than `w` since `before`.
abbrev pub Kept : String → Bindings → Leases → Bindings → Type 0
Kept w before leases bindings = Sound leases bindings × Frame w before bindings

abbrev pub Keeping : {A : Type 0} → String → Bindings → Result A × Plugin → Type 0
Keeping w before = Always (Kept w before)

-- What holds between the recovery of a binding and its storage.
abbrev pub Backed : String → Bindings → WorkspaceBinding → Leases → Bindings → Type 0
Backed w before b leases bindings = Kept w before leases bindings × IsBacked leases w b

-- What holds where a round for a stored binding starts, and where its host has been selected.
abbrev pub Entry : WorkspaceBinding → Bindings → Leases → Bindings → Type 0
Entry b before leases bindings =
    Kept b.workspace_id before leases bindings × (lookup b.workspace_id bindings ≡ some b)

module _ (env : Env) (w : String) (before : Bindings) where
  pub delete_binding-Keeping :
      (p : Plugin) → Kept w before p.leases p.bindings → Keeping w before (delete_binding env w p)
  unfolding delete_binding State.delete
  delete_binding-Keeping p (s, f) =
      lift-Ends (Kept w before) (write_state env (State.save (erase w p.bindings)))
        (record p { bindings = erase w p.bindings })
        (Sound-erase p.leases p.bindings s w, Frame-erase w before p.bindings f)

  -- The binding goes together with its lease.
  pub drop-Keeping :
      (host : String) (p : Plugin)
      → Kept w before p.leases p.bindings
      → Keeping w before ((release host w >> delete_binding env w) p)
  unfolding delete_binding State.delete Provider.release
  drop-Keeping host p (s, f) =
      lift-Ends (Kept w before) (write_state env (State.save (erase w p.bindings)))
        (record p { leases = Leases.release p.leases host w; bindings = erase w p.bindings })
        (Sound-drop p.leases p.bindings s host w, Frame-erase w before p.bindings f)

-- `removeBinding` leads from a `Sound` state to one, whether it throws or not, and touches only the
-- binding that it removes.
pub remove_binding-Keeping :
    (env : Env) (b : WorkspaceBinding) (before : Bindings) (p : Plugin)
    → Kept b.workspace_id before p.leases p.bindings
    → Keeping b.workspace_id before (remove_binding env b p)
unfolding remove_binding
remove_binding-Keeping env b before p k =
    let K = Kept b.workspace_id before in
    bind-Always K (lift (remove_remote_workspace env b)) _ p
      (lift-Ends K (remove_remote_workspace env b) p k)
      λ _ q h.
        bind-Always K (lift (close_recovered_binding env b)) _ q
          (lift-Ends K (close_recovered_binding env b) q h)
          λ _ u i. drop-Keeping env b.workspace_id before b.host u i

module _ (env : Env) (config : ResolvedPluginConfig) (mode : config.defaults.lease_mode ≡ exclusive)
    (w : String) (named : w ≢ "") where
  -- A resolution keeps the invariant, and on success `w` holds the host.
  pub acquire_resolved-Ends :
      (E : Bindings → Type 0) (request : HostSelectionRequest) (p : Plugin)
      → Sound p.leases p.bindings
      → E p.bindings
      → Ends
          (λ r q. Sound q.leases q.bindings × E q.bindings × (holder q.leases r.host.name ≡ some w))
          (λ q. Sound q.leases q.bindings × E q.bindings)
          (acquire_resolved env config request w p)
  unfolding acquire_resolved
  acquire_resolved-Ends E request p s x = go (resolved.0) refl
    where
      resolved : Result ResolvedHost × Leases
      resolved = Provider.acquire_resolved config p.leases request w (env.clock p.trace)

      grown : Sound resolved.1 p.bindings
      grown =
          Sound-grow p.leases p.bindings s resolved.1
            (acquire_resolved-keeps config mode p.leases request w (env.clock p.trace))

      go :
          (r : Result ResolvedHost)
          → resolved.0 ≡ r
          → Ends
              (λ r q.
                Sound q.leases q.bindings × E q.bindings × (holder q.leases r.host.name ≡ some w))
              (λ q. Sound q.leases q.bindings × E q.bindings)
              (r, record p { leases = resolved.1 })
      go (ok r) e = (
        grown,
        x,
        (acquire_resolved-takes config mode p.leases request w (env.clock p.trace) r named e).0,
      )
      go (err y) e = (grown, x)

-- A recovered binding is in order if the old one was.
pub recovery-IsBacked :
    (leases : Leases) (w : String) (b r : WorkspaceBinding)
    → IsRecovery b r
    → IsBacked leases w b
    → IsBacked leases w r
recovery-IsBacked leases w b r i g = record {
  own = ap (λ x. x.workspace_id) i.same ∙ g.own;
  named = g.named;
  live = elim i.status [ inl e ↦ ap is_removed e ∙ g.live | inr e ↦ ap is_removed e ];
  held = ap (holder leases) (ap (λ x. x.host) i.same) ∙ g.held;
}

-- Another session changes nothing that the invariant speaks of.
pub session-IsBacked :
    (leases : Leases) (w : String) (b : WorkspaceBinding) (session : Option String)
    → IsBacked leases w b
    → IsBacked leases w (record b { session_id = session })
session-IsBacked leases w b session g = record {
  own = g.own;
  named = g.named;
  live = g.live;
  held = g.held;
}

module _ (env : Env) (w : String) (before : Bindings) where
  pub replace_binding-Keeping :
      (b : WorkspaceBinding) (p : Plugin)
      → IsBacked p.leases w b
      → Kept w before p.leases p.bindings
      → Keeping w before (replace_binding env b p)
  unfolding replace_binding State.replace
  replace_binding-Keeping b p g (s, f) =
      let next = insert b.workspace_id b p.bindings in
      lift-Ends (Kept w before) (write_state env (State.save next)) (record p { bindings = next })
        (subst (λ v. Kept w before p.leases (insert v b p.bindings)) (sym g.own)
          (Sound-insert p.leases p.bindings s w b g, Frame-insert w b before p.bindings f))

module _ (env : Env) (config : ResolvedPluginConfig) (mode : config.defaults.lease_mode ≡ exclusive)
    (b : WorkspaceBinding) (before : Bindings) where
  pub recover-Ends :
      (selection : ResolvedHost) (p : Plugin)
      → Entry b before p.leases p.bindings
      → Ends
          (λ r q. IsRecovery b r × Backed b.workspace_id before b q.leases q.bindings)
          (λ q. Kept b.workspace_id before q.leases q.bindings)
          (lift (ensure_recovered_binding env config b selection) p)
  recover-Ends selection p (k, e) =
      lift-Returns (Backed b.workspace_id before b) (Kept b.workspace_id before) (IsRecovery b)
        (ensure_recovered_binding env config b selection) p
        (ensure_recovered_binding-IsRecovery env config b selection p.trace)
        (k, k.0.backed b.workspace_id b e) (λ h. h.0)

  -- A host is acquired for the binding's workspace, and what follows starts from there.
  pub acquired-Keeping :
      {A : Type 0} (request : HostSelectionRequest) (f : ResolvedHost → Action A) (p : Plugin)
      → Entry b before p.leases p.bindings
      → ((selection : ResolvedHost) (u : Plugin)
          → Entry b before u.leases u.bindings
          → Keeping b.workspace_id before (f selection u))
      → Keeping b.workspace_id before ((acquire_resolved env config request b.workspace_id >>= f) p)
  acquired-Keeping request f p (k, e) after =
      let w = b.workspace_id in
      let E : Bindings → Type 0 = λ bs. Frame w before bs × (lookup w bs ≡ some b) in
      bind-Ends
        (λ r q. Sound q.leases q.bindings × E q.bindings × (holder q.leases r.host.name ≡ some w))
        (λ _ q. Kept w before q.leases q.bindings) (λ q. Kept w before q.leases q.bindings)
        (acquire_resolved env config request w) f p
        (Ends-weaken
          (λ r q. Sound q.leases q.bindings × E q.bindings × (holder q.leases r.host.name ≡ some w))
          (λ q. Sound q.leases q.bindings × E q.bindings) (λ q. Kept w before q.leases q.bindings)
          (acquire_resolved env config request w p)
          (acquire_resolved-Ends env config mode w (k.0.backed w b e).named E request p k.0
            (k.1, e))
          (λ q h. (h.0, h.1.0)))
        (λ selection u h. after selection u ((h.0, h.1.0), h.1.1))
