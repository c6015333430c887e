-- ===== src/Plugin/Dropped.antt =====
-- What `findReusableBinding` of plugin/src/index.ts does with a binding that cannot have the
-- requested host.
use opencode_remote_ssh.Base.{
  ap, ◌∙◌, String, ◌≡◌, true, false, ◌∷◌, ◌||◌, not, Option, none, some, erase, or_default, ◌==◌,
  arith,
}
use opencode_remote_ssh.Types.{Error, ResolvedHost, Result, ok, err, WorkspaceBinding}
use opencode_remote_ssh.Config.{ResolvedPluginConfig}
use opencode_remote_ssh.Leases
use opencode_remote_ssh.Leases.{Leases}
use opencode_remote_ssh.Provider
use opencode_remote_ssh.Provider.Failure.{acquire_resolved-err}
use opencode_remote_ssh.State
use opencode_remote_ssh.Effects.{Env, wrote_state}
use opencode_remote_ssh.Effects.Steps.{write_state-ok}
use opencode_remote_ssh.Plugin.{
  Plugin, pure, try_catch, release, ◌>>◌, acquire_resolved, delete_binding,
}
use opencode_remote_ssh.Plugin.Rules.{bind-ok, bind-err, try_catch-err, if-false}
use opencode_remote_ssh.Plugin.Connect.{
  is_removed, host_request, reuse_selected, reuse_entry, drop_entry, try_reuse,
}

module _ (env : Env) (config : ResolvedPluginConfig) (b : WorkspaceBinding) where
  -- What the plugin is after the binding and its lease have gone and the state has been written.
  pub without : Plugin → Plugin
  without p =
      let after = erase b.workspace_id p.bindings in
      record {
        leases = Leases.release p.leases b.host b.workspace_id;
        bindings = after;
        trace = wrote_state (State.save after) ∷ p.trace;
      }

  refused-reuse :
      (host : Option String) (e : Error) (p : Plugin)
      → let r = host_request b.provider (some (or_default host b.host)) in
        (Provider.acquire_resolved config p.leases r b.workspace_id (env.clock p.trace)).0 ≡ err e
        → reuse_entry env config b.provider host b p ≡ (err e, p)
  unfolding reuse_entry acquire_resolved
  refused-reuse host e p refused =
      let r = host_request b.provider (some (or_default host b.host)) in
      let kept =
        acquire_resolved-err config p.leases r b.workspace_id (env.clock p.trace) e refused in
      let out = Provider.acquire_resolved config p.leases r b.workspace_id (env.clock p.trace) in
      let refusal : Leases → Result ResolvedHost × Plugin = λ l. (err e, record p { leases = l }) in
      bind-err (acquire_resolved env config r b.workspace_id) (reuse_selected env config b) p p e
        (ap (λ x. (x, record p { leases = out.1 })) refused ∙ ap refusal kept)

  drop_entry-run :
      (e : Error) (p : Plugin)
      → env.write_state p.trace (State.save (erase b.workspace_id p.bindings)) ≡ true
      → drop_entry env config b e p ≡ (ok none, without p)
  unfolding drop_entry delete_binding without Provider.release State.delete
  drop_entry-run e p written =
      let q = without p in
      bind-ok (release b.host b.workspace_id >> delete_binding env b.workspace_id)
        (λ (_ : Unit {0}). pure none) p q tt
        (ap (λ x. (x.0, record q { trace = x.1 }))
          (write_state-ok env (State.save (erase b.workspace_id p.bindings)) p.trace written))

  wanted :
      is_removed b.status ≡ false → (is_removed b.status || not (b.provider == b.provider)) ≡ false
  wanted live = ground arith

  -- A binding of the provider whose workspace cannot have the requested host, for instance since
  -- another workspace holds that host, is deleted and its own host released. If the state file can be
  -- written, that write is all that is asked of the surroundings: the binding is not checked, and its
  -- tunnel stays.
  pub try_reuse-drops :
      (host : Option String) (e : Error) (p : Plugin)
      → is_removed b.status ≡ false
      → let r = host_request b.provider (some (or_default host b.host)) in
        (Provider.acquire_resolved config p.leases r b.workspace_id (env.clock p.trace)).0 ≡ err e
        → env.write_state p.trace (State.save (erase b.workspace_id p.bindings)) ≡ true
        → try_reuse env config b.provider host b p ≡ (ok none, without p)
  unfolding try_reuse
  try_reuse-drops host e p live refused written =
      let body = reuse_entry env config b.provider host b in
      let handler = drop_entry env config b in
      if-false (is_removed b.status || not (b.provider == b.provider)) (pure none)
        (try_catch body handler) p (wanted live)
      ∙ try_catch-err body handler p p e (refused-reuse host e p refused)
      ∙ drop_entry-run e p written
