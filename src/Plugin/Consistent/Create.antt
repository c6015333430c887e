-- ===== src/Plugin/Consistent/Create.antt =====
-- Making a workspace (plugin/src/index.ts), and the invariant. The new binding is set in the map
-- before the state file is written, so that file has to be writable.
use opencode_remote_ssh.Base.{
  String, ◌≡◌, refl, ◌≢◌, true, Option, none, some, lookup, insert, sym, subst, ap,
}
use opencode_remote_ssh.Types.{exclusive, ResolvedHost, Result, ok, err, WorkspaceBinding}
use opencode_remote_ssh.Config.{ResolvedPluginConfig}
use opencode_remote_ssh.Leases.{Leases}
use opencode_remote_ssh.Leases.Holding.{holder}
use opencode_remote_ssh.Provider
use opencode_remote_ssh.Provider.{HostSelectionRequest}
use opencode_remote_ssh.State
use opencode_remote_ssh.State.{StateFile, Bindings}
use opencode_remote_ssh.Effects.{Env, Io, Trace}
use opencode_remote_ssh.Effects.Steps.{write_state-ok}
use opencode_remote_ssh.Ssh.Bootstrap.{BootstrapResult, bootstrap}
use opencode_remote_ssh.Plugin.{
  Plugin, Action, pure, throw, lift, ◌>>=◌, ◌>>◌, release, set_binding, acquire_resolved,
}
use opencode_remote_ssh.Plugin.Rules.{
  Ends, Ends-weaken, Always, bind-Always, bind-Ends, try_catch-Ends, lift-Returns,
}
use opencode_remote_ssh.Plugin.Remote.{create_remote_session, create_remote_workspace}
use opencode_remote_ssh.Plugin.Connect.{
  new_binding, or_release, connect_selected, connect_as, host_request,
}
use opencode_remote_ssh.Plugin.Adapter.{bind_selected}
use opencode_remote_ssh.Plugin.Consistent.{IsBacked, Sound, Sound-insert, Sound-release}
use opencode_remote_ssh.Plugin.Consistent.Keeping.{acquire_resolved-Ends}

-- Every write of the state file succeeds.
abbrev pub StateIsWritable : Env → Type 0
StateIsWritable env = (t : Trace) (file : StateFile) → env.write_state t file ≡ true

-- Nothing has been stored for `w`.
abbrev Unbound : String → Leases → Bindings → Type 0
Unbound w leases bindings = Sound leases bindings × (lookup w bindings ≡ none)

-- The same, with the host selected and leased.
abbrev Selected : String → ResolvedHost → Leases → Bindings → Type 0
Selected w selection leases bindings =
    Unbound w leases bindings × (holder leases selection.host.name ≡ some w)

none-ne-some :
    (v : String) (bindings : Bindings) (b : WorkspaceBinding)
    → lookup v bindings ≡ none
    → lookup v bindings ≡ some b
    → ⊥
none-ne-some v bindings b x y = cc

-- A selection on its own.
pub acquire-Sound :
    (env : Env) (config : ResolvedPluginConfig)
    → config.defaults.lease_mode ≡ exclusive
    → (w : String) → w ≢ ""
    → (request : HostSelectionRequest) (p : Plugin) → Sound p.leases p.bindings
    → Always Sound (acquire_resolved env config request w p)
acquire-Sound env config mode w named request p s =
    go (acquire_resolved env config request w p)
      (acquire_resolved-Ends env config mode w named (λ _. Unit {0}) request p s tt)
  where
    go :
        (x : Result ResolvedHost × Plugin)
        → Ends
            (λ r q. Sound q.leases q.bindings × Unit {0} × (holder q.leases r.host.name ≡ some w))
            (λ q. Sound q.leases q.bindings × Unit {0})
            x
        → Always Sound x
    go (ok a, q) h = h.0
    go (err e, q) h = h.0

module _ (env : Env) (config : ResolvedPluginConfig) (saves : StateIsWritable env) (w : String)
    (named : w ≢ "") where
  lift-Selected :
      {A : Type 0} (m : Io A) (selection : ResolvedHost) (u : Plugin)
      → Selected w selection u.leases u.bindings
      → Ends
          (λ _ q. Unit {0} × Selected w selection q.leases q.bindings)
          (λ q. Unbound w q.leases q.bindings)
          (lift m u)
  lift-Selected m selection u h =
      lift-Returns (Selected w selection) (Unbound w) (λ _. Unit {0}) m u (λ _ _. tt) h (λ k. k.0)

  set-Sound :
      (b : WorkspaceBinding) (u : Plugin)
      → Sound u.leases u.bindings
      → IsBacked u.leases w b
      → Ends
          (λ _ q. Sound q.leases q.bindings)
          (λ q. Unbound w q.leases q.bindings)
          (set_binding env b u)
  unfolding set_binding State.set
  set-Sound b u s g =
      let next = insert b.workspace_id b u.bindings in
      let v : Plugin = record u { bindings = next } in
      let good : Sound u.leases next =
        subst (λ k. Sound u.leases (insert k b u.bindings)) (sym g.own)
          (Sound-insert u.leases u.bindings s w b g) in
      subst
        (Ends (λ (_ : Unit {0}) q. Sound q.leases q.bindings) (λ q. Unbound w q.leases q.bindings))
        (sym (
          ap (λ x. (x.0, record v { trace = x.1 }))
            (write_state-ok env (State.save next) u.trace (saves u.trace (State.save next)))))
        good

  -- The binding of a selected host.
  new-IsBacked :
      (selection : ResolvedHost) (boot : BootstrapResult) (session : Option String) (u : Plugin)
      → Selected w selection u.leases u.bindings
      → IsBacked u.leases w
          (record (new_binding env config w selection boot) { session_id = session })
  new-IsBacked selection boot session u h = record {
    own = refl;
    named = named;
    live = refl;
    held = h.1;
  }

  -- What follows the selection runs under `try`, and its `catch` releases the host.
  or_release-Sound :
      {A : Type 0} (selection : ResolvedHost) (m : Action A) (u : Plugin)
      → Ends (λ _ q. Sound q.leases q.bindings) (λ q. Unbound w q.leases q.bindings) (m u)
      → Always Sound (or_release env config selection w m u)
  unfolding Provider.release
  or_release-Sound selection m u h =
      try_catch-Ends (λ _ q. Sound q.leases q.bindings) (λ q. Unbound w q.leases q.bindings)
        (λ q. Sound q.leases q.bindings) m (λ e. release selection.host.name w >> throw e) u h
        (λ e v k.
          Sound-release v.leases v.bindings k.0 selection.host.name w
            (λ b found same. absurd (none-ne-some w v.bindings b k.1 found)))

  -- A selection for a workspace without a binding, and what follows.
  acquire_then-Sound :
      {A : Type 0} (request : HostSelectionRequest) (f : ResolvedHost → Action A)
      → config.defaults.lease_mode ≡ exclusive
      → (p : Plugin) → Sound p.leases p.bindings
      → lookup w p.bindings ≡ none
      → ((selection : ResolvedHost) (u : Plugin)
          → Selected w selection u.leases u.bindings
          → Always Sound (f selection u))
      → Always Sound ((acquire_resolved env config request w >>= f) p)
  acquire_then-Sound request f mode p s fresh after =
      bind-Ends
        (λ r q.
          Sound q.leases q.bindings
          × (lookup w q.bindings ≡ none)
          × (holder q.leases r.host.name ≡ some w))
        (λ _ q. Sound q.leases q.bindings) (λ q. Sound q.leases q.bindings)
        (acquire_resolved env config request w) f p
        (Ends-weaken
          (λ r q.
            Sound q.leases q.bindings
            × (lookup w q.bindings ≡ none)
            × (holder q.leases r.host.name ≡ some w))
          (λ q. Sound q.leases q.bindings × (lookup w q.bindings ≡ none))
          (λ q. Sound q.leases q.bindings) (acquire_resolved env config request w p)
          (acquire_resolved-Ends env config mode w named (λ bs. lookup w bs ≡ none) request p s
            fresh)
          (λ q h. h.0))
        (λ selection u h. after selection u ((h.0, h.1), h.2))

  -- A lifted computation, and what follows it.
  lift_then :
      {A B : Type 0} (m : Io A) (selection : ResolvedHost) (f : A → Action B) (u : Plugin)
      → Selected w selection u.leases u.bindings
      → ((a : A) (q : Plugin)
          → Selected w selection q.leases q.bindings
          → Ends (λ _ q. Sound q.leases q.bindings) (λ q. Unbound w q.leases q.bindings) (f a q))
      → Ends
          (λ _ q. Sound q.leases q.bindings)
          (λ q. Unbound w q.leases q.bindings)
          ((lift m >>= f) u)
  lift_then m selection f u h after =
      bind-Ends (λ _ q. Unit {0} × Selected w selection q.leases q.bindings)
        (λ _ q. Sound q.leases q.bindings) (λ q. Unbound w q.leases q.bindings) (lift m) f u
        (lift-Selected m selection u h) (λ a q k. after a q k.1)

  connect_selected-Ends :
      (selection : ResolvedHost) (u : Plugin)
      → Selected w selection u.leases u.bindings
      → Ends
          (λ _ q. Sound q.leases q.bindings)
          (λ q. Unbound w q.leases q.bindings)
          (connect_selected env config w selection u)
  unfolding connect_selected
  connect_selected-Ends selection u h =
      lift_then (bootstrap env config w selection) selection _ u h (λ boot q k.
        let b = new_binding env config w selection boot in
        lift_then (create_remote_workspace env b) selection _ q k (λ _ v i.
          lift_then (create_remote_session env b) selection _ v i (λ session x j.
            let connected = record b { session_id = some session } in
            bind-Ends (λ _ y. Sound y.leases y.bindings) (λ _ y. Sound y.leases y.bindings)
              (λ y. Unbound w y.leases y.bindings) (set_binding env connected)
              (λ (_ : Unit {0}). pure connected) x
              (set-Sound connected x j.0.0 (new-IsBacked selection boot (some session) x j))
              (λ _ y s. s))))

  -- Bootstrap and the binding, under `try`, as the adapter and `remote-workspace-create` have it.
  bind_body : ResolvedHost → Action (Unit {0})
  bind_body selection = do
    boot ← lift (bootstrap env config w selection)
    set_binding env (new_binding env config w selection boot)

  bind_body-Ends :
      (selection : ResolvedHost) (u : Plugin)
      → Selected w selection u.leases u.bindings
      → Ends
          (λ _ q. Sound q.leases q.bindings)
          (λ q. Unbound w q.leases q.bindings)
          (bind_body selection u)
  unfolding bind_body
  bind_body-Ends selection u h =
      lift_then (bootstrap env config w selection) selection _ u h (λ boot q k.
        set-Sound (new_binding env config w selection boot) q k.0.0
          (new-IsBacked selection boot none q k))

  module _ (mode : config.defaults.lease_mode ≡ exclusive) where
    pub connect_as-Sound :
        (name : String) (host : Option String) (p : Plugin)
        → Sound p.leases p.bindings
        → lookup w p.bindings ≡ none
        → Always Sound (connect_as env config w name host p)
    unfolding connect_as
    connect_as-Sound name host p s fresh =
        acquire_then-Sound (host_request name host)
          (λ selection. or_release env config selection w (connect_selected env config w selection))
          mode p s fresh
          (λ selection u h.
            or_release-Sound selection (connect_selected env config w selection) u
              (connect_selected-Ends selection u h))

    bind_selected-Sound :
        (selection : ResolvedHost) (u : Plugin)
        → Selected w selection u.leases u.bindings
        → Always Sound (bind_selected env config w selection u)
    unfolding bind_selected bind_body
    bind_selected-Sound selection u h =
        or_release-Sound selection (bind_body selection) u (bind_body-Ends selection u h)

    pub acquire_bind-Sound :
        (request : HostSelectionRequest) (p : Plugin)
        → Sound p.leases p.bindings
        → lookup w p.bindings ≡ none
        → Always Sound ((acquire_resolved env config request w >>= bind_selected env config w) p)
    acquire_bind-Sound request p s fresh =
        acquire_then-Sound request (bind_selected env config w) mode p s fresh bind_selected-Sound

    -- With a report on the selection.
    pub acquire_bind_report-Sound :
        {A : Type 0} (request : HostSelectionRequest) (report : ResolvedHost → A) (p : Plugin)
        → Sound p.leases p.bindings
        → lookup w p.bindings ≡ none
        → Always Sound (
            (acquire_resolved env config request w
                >>= (λ selection. bind_selected env config w selection >> pure (report selection)))
              p)
    acquire_bind_report-Sound request report p s fresh =
        acquire_then-Sound request
          (λ selection. bind_selected env config w selection >> pure (report selection)) mode p s
          fresh
          (λ selection u h.
            bind-Always Sound (bind_selected env config w selection)
              (λ (_ : Unit {0}). pure (report selection)) u (bind_selected-Sound selection u h)
              (λ _ v i. i))
