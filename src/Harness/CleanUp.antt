-- ===== src/Harness/CleanUp.antt =====
-- The `finally` of scripts/verify-remote-lifecycle.mjs.
use opencode_remote_ssh.Base.{◌<>◌, ◌≡◌, refl, ◌≢◌, none, some, ◌∷◌, ap, ◌∙◌, sym}
use opencode_remote_ssh.Types.{Result, ok, err, external}
use opencode_remote_ssh.Leases.Holding.{holder}
use opencode_remote_ssh.Provider
use opencode_remote_ssh.Effects
use opencode_remote_ssh.Effects.{Env, Trace, Method, Request, Response, fetched}
use opencode_remote_ssh.Ssh.Recover.{teardown}
use opencode_remote_ssh.Plugin.{Plugin, Action, lift, release, ◌>>◌}
use opencode_remote_ssh.Plugin.Rules.{bind-ok, bind-err}
use opencode_remote_ssh.Plugin.Disconnected.{released}
use opencode_remote_ssh.Harness.{cleanup, checked}
use opencode_remote_ssh.Harness.Checks.{Json, Target, Verified, request, checks}

-- The state with another trace.
abbrev at_trace : Plugin → Trace → Plugin
at_trace p t = record p { trace = t }

answered-fetch :
    (env : Env) (r : Request) (p : Plugin) (answer : Response)
    → env.fetch p.trace r ≡ some answer
    → lift (Effects.fetch env r) p ≡ (ok answer, at_trace p (fetched r ∷ p.trace))
answered-fetch env r p answer e = rw e refl

silent-fetch :
    (env : Env) (r : Request) (p : Plugin)
    → env.fetch p.trace r ≡ none
    → lift (Effects.fetch env r) p
      ≡ (err (external "call failed"), at_trace p (fetched r ∷ p.trace))
silent-fetch env r p e = rw e refl

caught :
    (x : Result (Unit {0}) × Plugin)
    → (elim x.0 as (λ _. Result (Unit {0}) × Plugin) [ ok a ↦ (ok a, x.1) | err e ↦ (ok tt, x.1) ])
      ≡ (ok tt, x.1)
caught (ok a, q) = refl
caught (err e, q) = refl

module _ (env : Env) (json : Json) (target : Target) (p : Plugin) where
  -- How the checks end, and what has been done by then.
  abbrev outcome : Result Verified
  outcome = (checks env json target p.trace).0

  abbrev checked_trace : Trace
  checked_trace = (checks env json target p.trace).1

  abbrev delete_session : Request
  delete_session = request target Method.delete ("/session/" <> target.session_id) none

  abbrev delete_workspace : Request
  delete_workspace =
      request target Method.delete ("/experimental/workspace/" <> target.binding.workspace_id) none

  -- The last two steps of the clean-up, and the last three.
  abbrev after_workspace : Action (Unit {0})
  after_workspace =
      lift (teardown env target.binding) >> release target.binding.host target.binding.workspace_id

  abbrev after_session : Action (Unit {0})
  after_session = lift (Effects.fetch env delete_workspace) >> after_workspace

  abbrev before : Plugin
  before = at_trace p checked_trace

  -- The result is that of the checks, and the state that of the clean-up, however either ends.
  checked-run :
      checked env json target p ≡ (outcome, (cleanup env json target (at_trace p checked_trace)).1)
  unfolding checked
  checked-run =
      ap
        (λ (y : Result (Unit {0}) × Plugin). elim y.0 as (λ _. Result Verified × Plugin) [
          | ok a ↦ (outcome, y.1)
          | err e ↦ (err e, y.1)
        ])
        (caught (cleanup env json target (at_trace p checked_trace)))

  -- Where an answer to the first request of the clean-up is missing, that is all of it: the
  -- workspace is not deleted, the tunnel is not closed, and the lease stays.
  pub checked-leaks :
      env.fetch checked_trace delete_session ≡ none
      → checked env json target p
        ≡ (outcome, record p { trace = fetched delete_session ∷ checked_trace })
  unfolding cleanup
  checked-leaks silent =
      checked-run
      ∙ ap (λ x. (outcome, x.1))
          (bind-err (lift (Effects.fetch env delete_session)) (λ _. after_session) before
            (at_trace p (fetched delete_session ∷ checked_trace)) (external "call failed")
            (silent-fetch env delete_session before silent))

  -- Where both requests of the clean-up are answered, with whatever status, and the tunnel can be
  -- closed, the result is that of the checks, whether they threw or not, the closing of the tunnel
  -- is the last that is done, and the workspace does not hold its host any more.
  pub checked-cleans :
      (first second : Response)
      → env.fetch checked_trace delete_session ≡ some first
      → env.fetch (fetched delete_session ∷ checked_trace) delete_workspace ≡ some second
      → (teardown env target.binding
          (fetched delete_workspace ∷ fetched delete_session ∷ checked_trace)).0
        ≡ ok tt
      → let (result, q) = checked env json target p in
        (result ≡ outcome)
        × (q.trace
            ≡ (teardown env target.binding
                (fetched delete_workspace ∷ fetched delete_session ∷ checked_trace)).1)
        × (holder q.leases target.binding.host ≢ some target.binding.workspace_id)
  unfolding cleanup Provider.release
  checked-cleans first second one two closed =
      let u : Trace = fetched delete_session ∷ checked_trace in
      let v : Trace = fetched delete_workspace ∷ u in
      let last = at_trace p (teardown env target.binding v).1 in
      let end : Plugin = record last {
        leases = Provider.release p.leases target.binding.host target.binding.workspace_id;
      } in
      let clean : cleanup env json target before ≡ (ok tt, end) =
        bind-ok (lift (Effects.fetch env delete_session)) (λ _. after_session) before (at_trace p u)
          first (answered-fetch env delete_session before first one)
        ∙ bind-ok (lift (Effects.fetch env delete_workspace)) (λ _. after_workspace) (at_trace p u)
            (at_trace p v) second (answered-fetch env delete_workspace (at_trace p u) second two)
        ∙ bind-ok (lift (teardown env target.binding))
            (λ _. release target.binding.host target.binding.workspace_id) (at_trace p v) last tt
            (ap (λ r. (r, last)) closed) in
      let run = checked-run ∙ ap (λ x. (outcome, x.1)) clean in
      (
        ap (λ x. x.0) run,
        ap (λ x. x.1.trace) run,
        λ e.
            released p.leases target.binding.host target.binding.workspace_id
              (ap (λ x. holder x.1.leases target.binding.host) (sym run) ∙ e),
      )
