-- ===== src/Plugin/Unsaved.antt =====
-- Making a workspace where the state file cannot be written (plugin/src/index.ts).
use opencode_remote_ssh.Base.{
  String, ◌≡◌, false, ◌∷◌, none, some, lookup, insert, lookup-insert, arith, ap, ◌∙◌,
}
use opencode_remote_ssh.Types.{ResolvedHost, external, ok, err}
use opencode_remote_ssh.Config.{ResolvedPluginConfig}
use opencode_remote_ssh.Leases
use opencode_remote_ssh.Leases.{Leases}
use opencode_remote_ssh.Leases.Holding.{holder, get-release}
use opencode_remote_ssh.Provider
use opencode_remote_ssh.State
use opencode_remote_ssh.Effects.{Env, wrote_state}
use opencode_remote_ssh.Effects.Steps.{write_state-err}
use opencode_remote_ssh.Ssh.Bootstrap.{BootstrapResult, bootstrap}
use opencode_remote_ssh.Plugin.{Plugin, throw, lift, release, set_binding, ◌>>=◌, ◌>>◌}
use opencode_remote_ssh.Plugin.Rules.{bind-ok, try_catch-err}
use opencode_remote_ssh.Plugin.Connect.{new_binding}
use opencode_remote_ssh.Plugin.Adapter.{bind_selected}

module _ (env : Env) (config : ResolvedPluginConfig) (w : String) (selection : ResolvedHost)
    (boot : BootstrapResult) (p : Plugin) where
  -- The state in which `bootstrap` leaves the plugin, and that with the binding set.
  abbrev booted : Plugin
  booted = record p { trace = (bootstrap env config w selection p.trace).1 }

  abbrev stored : Plugin
  stored =
      let next = insert w (new_binding env config w selection boot) p.bindings in
      record booted { bindings = next; trace = wrote_state (State.save next) ∷ booted.trace }

  body-unsaved :
      (bootstrap env config w selection p.trace).0 ≡ ok boot
      → env.write_state booted.trace (State.save stored.bindings) ≡ false
      → (lift (bootstrap env config w selection)
            >>= (λ boot. set_binding env (new_binding env config w selection boot)))
          p
        ≡ (err (external "call failed"), stored)
  unfolding set_binding State.set
  body-unsaved up unwritten =
      bind-ok (lift (bootstrap env config w selection))
        (λ boot. set_binding env (new_binding env config w selection boot)) p booted boot
        (ap (λ r. (r, booted)) up)
      ∙ ap (λ x. (x.0, record stored { trace = x.1 }))
          (write_state-err env (State.save stored.bindings) booted.trace unwritten)

  -- If the state file cannot be written after a bootstrap that succeeded, the call throws and the
  -- host counts as free, but the new binding stays in the map, and its stub and tunnel run on.
  pub bind_selected-unsaved :
      holder p.leases selection.host.name ≡ some w
      → (bootstrap env config w selection p.trace).0 ≡ ok boot
      → env.write_state booted.trace (State.save stored.bindings) ≡ false
      → let (r, q) = bind_selected env config w selection p in
        (r ≡ err (external "call failed"))
        × (lookup w q.bindings ≡ some (new_binding env config w selection boot))
        × (Leases.get q.leases selection.host.name ≡ none)
        × (q.trace ≡ stored.trace)
  unfolding bind_selected Provider.release Leases.get
  bind_selected-unsaved held up unwritten =
      let host = selection.host.name in
      let end : Plugin = record stored { leases = Leases.release p.leases host w } in
      let run : bind_selected env config w selection p ≡ (err (external "call failed"), end) =
        try_catch-err
          (lift (bootstrap env config w selection)
            >>= (λ boot. set_binding env (new_binding env config w selection boot)))
          (λ e. release host w >> throw e) p stored (external "call failed")
          (body-unsaved up unwritten) in
      (
        ap (λ x. x.0) run,
        ap (λ x. lookup w x.1.bindings) run
            ∙ ground
                (arith, lookup-insert w w (new_binding env config w selection boot) p.bindings),
        ap (λ x. lookup host x.1.leases) run ∙ ground (arith, get-release p.leases host w host),
        ap (λ x. x.1.trace) run,
      )
