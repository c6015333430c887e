-- ===== src/Plugin/Consistent/Switch.antt =====
-- `remote-switch` and `remote-doctor` (plugin/src/index.ts), which reuse a binding or make one, and
-- the invariant.
use opencode_remote_ssh.Base.{
  ap, String, ◌<>◌, ◌≡◌, refl, Bool, true, false, Option, none, some, or_default,
}
use opencode_remote_ssh.Types.{
  exclusive, Result, ok, err, WorkspaceBinding, health_check_failed, external,
}
use opencode_remote_ssh.Types.Messages.{error_message}
use opencode_remote_ssh.Config.{ResolvedPluginConfig}
use opencode_remote_ssh.Effects.{Env, Response, fetch, is_success}
use opencode_remote_ssh.Ssh.Probe.{health_request}
use opencode_remote_ssh.Plugin.{Plugin, Action, pure, throw, try_catch, lift, ◌>>=◌, ◌>>◌}
use opencode_remote_ssh.Plugin.Rules.{Always, bind-Always, lift-Ends, if-Always, ran-Ends}
use opencode_remote_ssh.Plugin.Connect.{
  find_reusable_binding, create_connected_binding, new_workspace_id, remove_binding,
}
use opencode_remote_ssh.Plugin.Tools.{
  Report, success, failure, Diagnosis, attempt, provider_name, label_for, reuse_or_create,
  remote_switch, judge, diagnose, diagnose_new, doctor_after, remote_doctor,
}
use opencode_remote_ssh.Plugin.Consistent.{Sound}
use opencode_remote_ssh.Plugin.Consistent.Loops.{find_reusable_binding-Sound}
use opencode_remote_ssh.Plugin.Consistent.Create.{StateIsWritable, connect_as-Sound}
use opencode_remote_ssh.Plugin.Consistent.Calls.{
  id_at, id_at_named, IsNewId, try-Sound, reported-Sound, outcome-Sound, remove_binding-Sound,
}

attempt-Sound :
    {A : Type 0} (m : Action A) (p : Plugin) → Always Sound (m p) → Always Sound (attempt m p)
attempt-Sound m p h = outcome-Sound (m p) h

module _ (env : Env) (config : ResolvedPluginConfig) where
  -- If no binding can be reused, the id that is then made is not in use.
  abbrev pub MakesNewId : String → Option String → String → Plugin → Type 0
  MakesNewId name host label p =
      (u : Plugin)
      → find_reusable_binding env config name host p ≡ (ok none, u)
      → IsNewId env label u

  module _ (mode : config.defaults.lease_mode ≡ exclusive) (saves : StateIsWritable env) where
    create_connected_binding-Sound :
        (name : String) (host : Option String) (label : String) (p : Plugin)
        → IsNewId env label p
        → Sound p.leases p.bindings
        → Always Sound (create_connected_binding env config name host label p)
    unfolding create_connected_binding new_workspace_id
    create_connected_binding-Sound name host label p fresh s =
        connect_as-Sound env config saves (id_at (env.clock p.trace) label)
          (id_at_named (env.clock p.trace) label) mode name host p s fresh

    reuse_or_create-Sound :
        (name : String) (host : Option String) (p : Plugin)
        → MakesNewId name host (label_for env config host name) p
        → Sound p.leases p.bindings
        → Always Sound (reuse_or_create env config name host p)
    unfolding reuse_or_create
    reuse_or_create-Sound name host p fresh s =
        ran-Ends (λ _ q. Sound q.leases q.bindings) (λ _ q. Sound q.leases q.bindings)
          (λ q. Sound q.leases q.bindings) (find_reusable_binding env config name host)
          (λ found. elim found [
            | some b ↦ pure b
            | none ↦ create_connected_binding env config name host (label_for env config host name)
          ])
          p (find_reusable_binding-Sound env config mode name host p s) go
      where
        go :
            (found : Option WorkspaceBinding) (u : Plugin)
            → find_reusable_binding env config name host p ≡ (ok found, u)
            → Sound u.leases u.bindings
            → let m : Action WorkspaceBinding = elim found [
              | some b ↦ pure b
              | none ↦
                  create_connected_binding env config name host (label_for env config host name)
            ] in
              Always Sound (m u)
        go (some b) u e t = t
        go none u e t =
            create_connected_binding-Sound name host (label_for env config host name) u (fresh u e)
              t

    pub remote_switch-Sound :
        (host provider : Option String) (p : Plugin)
        → let name = or_default (provider_name config provider) "default" in
          MakesNewId name host (label_for env config host name) p
          → Sound p.leases p.bindings
          → Always Sound (remote_switch env config host provider p)
    unfolding remote_switch
    remote_switch-Sound host provider p fresh s =
        let name = or_default (provider_name config provider) "default" in
        reported-Sound (reuse_or_create env config name host >>= (λ b. pure (success b))) p (
          bind-Always Sound (reuse_or_create env config name host) (λ b. pure (success b)) p
            (reuse_or_create-Sound name host p fresh s) (λ _ u t. t))

    judge-Sound :
        (b : WorkspaceBinding) (reused : Bool) (response : Response) (p : Plugin)
        → Sound p.leases p.bindings
        → Always Sound (judge env config b reused response p)
    unfolding judge
    judge-Sound b reused response p s =
        if-Always Sound (is_success response)
          (elim response.json [
            | none ↦ throw (external "call failed")
            | some health ↦
                pure (success (record { binding = b; reused = reused; health = health }))
          ])
          (throw (health_check_failed response.status response.text)) p (λ _. parsed response.json)
          (λ _. s)
      where
        parsed :
            (json : Option String)
            → let m : Action (Report Diagnosis) = elim json [
              | none ↦ throw (external "call failed")
              | some health ↦
                  pure (success (record { binding = b; reused = reused; health = health }))
            ] in
              Always Sound (m p)
        parsed none = s
        parsed (some health) = s

    diagnose-Sound :
        (b : WorkspaceBinding) (reused : Bool) (p : Plugin)
        → Sound p.leases p.bindings
        → Always Sound (diagnose env config b reused p)
    unfolding diagnose
    diagnose-Sound b reused p s =
        let request = health_request b.local_port (some b.token) in
        reported-Sound (lift (fetch env request) >>= judge env config b reused) p (
          bind-Always Sound (lift (fetch env request)) (judge env config b reused) p
            (lift-Ends Sound (fetch env request) p s) (λ r u t. judge-Sound b reused r u t))

    -- The workspace that was made for the check goes, and what that throws is passed over.
    diagnose_new-Sound :
        (b : WorkspaceBinding) (p : Plugin)
        → Sound p.leases p.bindings
        → Always Sound (diagnose_new env config b p)
    unfolding diagnose_new
    diagnose_new-Sound b p s =
        let clean : Action (Unit {0}) = try_catch (remove_binding env b) (λ _. pure tt) in
        bind-Always Sound (diagnose env config b false) (λ report. clean >> pure report) p
          (diagnose-Sound b false p s)
          (λ report u t.
            bind-Always Sound clean (λ (_ : Unit {0}). pure report) u
              (try-Sound (remove_binding env b) (λ _. pure tt) u (remove_binding-Sound env b u t)
                (λ _ v i. i))
              (λ _ v i. i))

    doctor_made-Sound :
        (created : Result WorkspaceBinding) (u : Plugin)
        → Sound u.leases u.bindings
        → let m : Action (Report Diagnosis) = elim created [
          | err e ↦ pure (failure (error_message e))
          | ok b ↦ diagnose_new env config b
        ] in
          Always Sound (m u)
    doctor_made-Sound (err e) u t = t
    doctor_made-Sound (ok b) u t = diagnose_new-Sound b u t

    doctor_after-Sound :
        (found : Result (Option WorkspaceBinding)) (name : String) (host : Option String)
        (p : Plugin)
        → (found ≡ ok none → IsNewId env ("doctor-" <> label_for env config host name) p)
        → Sound p.leases p.bindings
        → Always Sound (doctor_after env config found name host p)
    unfolding doctor_after
    doctor_after-Sound (err e) name host p fresh s = s
    doctor_after-Sound (ok (some b)) name host p fresh s = diagnose-Sound b true p s
    doctor_after-Sound (ok none) name host p fresh s =
        let label = "doctor-" <> label_for env config host name in
        let make = create_connected_binding env config name host label in
        bind-Always Sound (attempt make)
          (λ created. elim created [
            | err e ↦ pure (failure (error_message e))
            | ok b ↦ diagnose_new env config b
          ])
          p (attempt-Sound make p (create_connected_binding-Sound name host label p (fresh refl) s))
          doctor_made-Sound

    pub remote_doctor-Sound :
        (host provider : Option String) (p : Plugin)
        → let name = or_default (provider_name config provider) "default" in
          MakesNewId name host ("doctor-" <> label_for env config host name) p
          → Sound p.leases p.bindings
          → Always Sound (remote_doctor env config host provider p)
    unfolding remote_doctor
    remote_doctor-Sound host provider p fresh s =
        let name = or_default (provider_name config provider) "default" in
        let found = find_reusable_binding env config name host in
        doctor_after-Sound (found p).0 name host (found p).1
          (λ e. fresh (found p).1 (ap (λ r. (r, (found p).1)) e))
          (outcome-Sound (found p) (find_reusable_binding-Sound env config mode name host p s))
