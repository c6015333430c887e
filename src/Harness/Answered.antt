-- ===== src/Harness/Answered.antt =====
-- A run of scripts/verify-remote-lifecycle.mjs against a stub that permits nothing on its own.
use opencode_remote_ssh.Base.{
  String, ◌≡◌, refl, true, List, ◌∷◌, find, arith, Option, some, ◌∙◌, ap,
}
use opencode_remote_ssh.Types.{ok}
use opencode_remote_ssh.Effects.{
  Env, Io, Trace, Request, Response, is_success, fetched, pure, ◌>>=◌, ◌>>◌,
}
use opencode_remote_ssh.Effects.Steps.{bind-ok}
use opencode_remote_ssh.Ssh.Probe.Waiting.{passes}
use opencode_remote_ssh.Harness.Checks.{
  status_request, workspace_request, session_request, list_request, Json, Permission, Target,
  Verified, shell_request, reply_request, asks, assert_ok, approve_listed, approve, probe_shell,
  checks,
}
use opencode_remote_ssh.Harness.Guarded.{
  is_refusal, opened, asked_for, listed_at, approved_at, IsGuarded, Gives, bind-Gives, passes-fetch,
  assert_ok-answer, assert_ok-success,
}

module _ (env : Env) (json : Json) (target : Target) where
  approve_listed-found :
      (text : String) (items : Option (List Permission)) (given : List Permission)
      (item : Permission) (t : Trace)
      → items ≡ some given
      → find (asks target) given ≡ some item
      → approve_listed env json target text items t
        ≡ (assert_ok env json "permission approve" (reply_request target item.id) >> pure tt) t
  unfolding approve_listed assert_ok
  approve_listed-found text items given item t e found = rw (e, approve_listed, found) refl

  probe_shell-refused :
      (t : Trace) (answer : Response)
      → env.fetch t (shell_request target) ≡ some answer
      → is_refusal answer ≡ true
      → probe_shell env json target t ≡ approve env json target (fetched (shell_request target) ∷ t)
  unfolding probe_shell
  probe_shell-refused t answer e refusal = ground arith

  module _ (t : Trace) (guarded : IsGuarded env json target t) where
    abbrev item : Permission
    item = guarded.item

    approve_listed-Gives :
        Gives
          (approve_listed env json target guarded.answer.text (json.listed guarded.answer.text))
          (listed_at env json target t)
          (approved_at env json target item t)
    approve_listed-Gives =
        let reply = reply_request target item.id in
        let u = listed_at env json target t in
        let (a, run) =
          bind-Gives (assert_ok env json "permission approve" reply) (λ _. pure tt) u
            (fetched reply ∷ u) (fetched reply ∷ u)
            (assert_ok-success env json "permission approve" reply u guarded.accepts)
            (λ _. (tt, refl)) in
        (
          a,
          approve_listed-found guarded.answer.text (json.listed guarded.answer.text) guarded.items
                item u guarded.lists guarded.finds
              ∙ run,
        )

    approve-Gives :
        Gives
          (approve env json target)
          (asked_for env json target t)
          (approved_at env json target item t)
    unfolding approve
    approve-Gives =
        let list = list_request target in
        let text = guarded.answer.text in
        let u = asked_for env json target t in
        let run =
          assert_ok-answer env json "permission list" list u guarded.answer guarded.answers
            guarded.answer_is_success in
        let (a, last) = approve_listed-Gives in
        (
          a,
          bind-ok (assert_ok env json "permission list" list)
                (λ given. approve_listed env json target given (json.listed given)) u text
                (ap (λ r. r.0) run)
              ∙ ap (λ r. approve_listed env json target text (json.listed text) r.1) run
              ∙ last,
        )

    probe_shell-Gives :
        Gives
          (probe_shell env json target)
          (opened env json target t)
          (approved_at env json target item t)
    probe_shell-Gives =
        let u = opened env json target t in
        let (answer, e, refusal) =
          passes-fetch env json is_refusal (shell_request target) u guarded.refuses in
        let (a, run) = approve-Gives in (a, probe_shell-refused u answer e refusal ∙ run)

    -- Against a stub that refuses the command, lists a request for it, accepts the answer and then runs
    -- the command, the checks return. They send seven requests in this order: health check, workspace,
    -- session, command, list of permission requests, the answer to one of them, and the command again.
    pub checks-completes :
        (result : Verified) × (checks env json target t
          ≡ (ok result, fetched (shell_request target) ∷ approved_at env json target item t))
    unfolding checks
    checks-completes =
        let ok_of = λ (label : String) (r : Request). assert_ok env json label r in
        let run =
          λ (label : String) (r : Request) (u : Trace)
              (h : passes is_success (env.fetch u r) ≡ true).
            assert_ok-success env json label r u h in
        let shell = shell_request target in
        let made = status_request target in
        let second = workspace_request target in
        let third = session_request target in
        let u = opened env json target t in
        let v = approved_at env json target item t in
        let last : String → Io Verified =
          λ h. ok_of "shell" shell >>= λ s. pure (record { health = h; shell = s }) in
        let probe = probe_shell env json target in
        bind-Gives (ok_of "health" made)
          (λ h.
            ok_of "workspace create" second >> (ok_of "session create" third >> (probe >> last h)))
          t (fetched made ∷ t) (fetched shell ∷ v) (run "health" made t guarded.healthy)
          (λ h.
            bind-Gives (ok_of "workspace create" second)
              (λ _. ok_of "session create" third >> (probe >> last h)) (fetched made ∷ t)
              (fetched second ∷ fetched made ∷ t) (fetched shell ∷ v)
              (run "workspace create" second (fetched made ∷ t) guarded.makes_workspace)
              (λ _.
                bind-Gives (ok_of "session create" third) (λ _. probe >> last h)
                  (fetched second ∷ fetched made ∷ t) u (fetched shell ∷ v)
                  (run "session create" third (fetched second ∷ fetched made ∷ t)
                    guarded.makes_session)
                  (λ _.
                    bind-Gives probe (λ _. last h) u v (fetched shell ∷ v) probe_shell-Gives
                      (λ _.
                        bind-Gives (ok_of "shell" shell)
                          (λ s. pure (record { health = h; shell = s })) v (fetched shell ∷ v)
                          (fetched shell ∷ v)
                          (assert_ok-success env json "shell" shell v guarded.allows)
                          (λ s. (record { health = h; shell = s }, refl))))))
