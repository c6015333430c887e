-- ===== src/Harness/Passing.antt =====
-- What a run of scripts/verify-remote-lifecycle.mjs that succeeds has seen of the stub.
use opencode_remote_ssh.Base.{
  String, ◌≡◌, refl, subst, sym, ap, ◌∙◌, ◌⊎◌, inl, inr, true, Option, none, some, List, ◌∷◌, find,
  eqb, if◌then◌else◌,
}
use opencode_remote_ssh.Types.{request_failed, shell_failed, permission_missing}
use opencode_remote_ssh.Effects.{
  Env, Trace, Io, Request, Response, is_success, fetch, fetched, pure, throw, ◌>>=◌, ◌>>◌,
}
use opencode_remote_ssh.Effects.Returns.{
  Returns, bind-Returns, weaken-Returns, if-Returns, fetch-Returns,
}
use opencode_remote_ssh.Ssh.Probe.Waiting.{passes}
use opencode_remote_ssh.Harness.Checks.{
  workspace_request, session_request, status_request, list_request, Json, Permission, Target,
  Verified, shell_request, reply_request, asks, assert_ok, approve_listed, approve, probe_shell,
  checks,
}
use opencode_remote_ssh.Harness.Guarded.{is_refusal, opened}

module _ (env : Env) (json : Json) where
  -- The request was answered at the trace with a success and the text.
  abbrev pub Answered : Trace → Request → String → Type 0
  Answered t r text =
      (answer : Response) × (env.fetch t r ≡ some answer)
      × (is_success answer ≡ true)
      × (answer.text ≡ text)

  assert_ok-Returns :
      (label : String) (r : Request) (t : Trace)
      → Returns (λ text u. Answered t r text × (u ≡ fetched r ∷ t)) (assert_ok env json label r t)
  unfolding assert_ok
  assert_ok-Returns label r t =
      let refuse = λ (response : Response).
        throw (request_failed label response.status (json.shown response.text)) in
      bind-Returns (λ text u. Answered t r text × (u ≡ fetched r ∷ t))
        (λ response u. (env.fetch t r ≡ some response) × (u ≡ fetched r ∷ t)) (fetch env r)
        (λ response. if is_success response then pure response.text else refuse response) t
        (fetch-Returns env r t)
        (λ response u (e, sent).
          if-Returns (λ text u. Answered t r text × (u ≡ fetched r ∷ t)) (is_success response)
            (pure response.text) (refuse response) u (λ passed. ((response, e, passed, refl), sent))
            (λ _. tt))

  -- The rule for a request that has to succeed.
  asserted-Returns :
      {B : Type 0} (S : B → Trace → Type 0) (label : String) (r : Request) (f : String → Io B)
      (t : Trace)
      → ((text : String) → Answered t r text → Returns S (f text (fetched r ∷ t)))
      → Returns S ((assert_ok env json label r >>= f) t)
  asserted-Returns S label r f t k =
      bind-Returns S (λ text u. Answered t r text × (u ≡ fetched r ∷ t))
        (assert_ok env json label r) f t (assert_ok-Returns label r t)
        (λ text u (answered, sent). subst (λ v. Returns S (f text v)) (sym sent) (k text answered))

  module _ (target : Target) where
    -- From the first trace to the second: the permission requests have been listed, and the first of this
    -- session has been answered, both with success.
    pub record IsApproved (t u : Trace) : Type 0 where
      pub text : String
      pub items : List Permission
      pub item : Permission
      pub reply : String
      pub listed : Answered t (list_request target) text
      pub read : json.listed text ≡ some items
      pub found : find (asks target) items ≡ some item
      pub accepted :
          Answered (fetched (list_request target) ∷ t) (reply_request target item.id) reply
      pub sent : u ≡ fetched (reply_request target item.id) ∷ fetched (list_request target) ∷ t

    approve_listed-IsApproved :
        (text : String) (items : Option (List Permission)) (t : Trace)
        → Answered t (list_request target) text
        → json.listed text ≡ items
        → Returns
            (λ _. IsApproved t)
            (approve_listed env json target text items (fetched (list_request target) ∷ t))
    unfolding approve_listed
    approve_listed-IsApproved text none t listed read = tt
    approve_listed-IsApproved text (some items) t listed read = go (find (asks target) items) refl
      where
        go :
            (found : Option Permission)
            → find (asks target) items ≡ found
            → Returns
                (λ _. IsApproved t)
                ((elim found as (λ _. Io (Unit {0})) [
                  | none ↦ throw (permission_missing (json.shown text))
                  | some item ↦
                      assert_ok env json "permission approve" (reply_request target item.id)
                      >> pure tt
                ])
                  (fetched (list_request target) ∷ t))
        go none e = tt
        go (some item) e =
            asserted-Returns (λ _. IsApproved t) "permission approve" (reply_request target item.id)
              (λ _. pure tt) (fetched (list_request target) ∷ t)
              (λ reply accepted. record {
                text = text;
                items = items;
                item = item;
                reply = reply;
                listed = listed;
                read = read;
                found = e;
                accepted = accepted;
                sent = refl;
              })

    approve-IsApproved : (t : Trace) → Returns (λ _. IsApproved t) (approve env json target t)
    unfolding approve
    approve-IsApproved t =
        asserted-Returns (λ _. IsApproved t) "permission list" (list_request target)
          (λ text. approve_listed env json target text (json.listed text)) t
          (λ text listed. approve_listed-IsApproved text (json.listed text) t listed refl)

    -- Between the two traces, the command was run, or it was refused and then permitted.
    abbrev pub Probed : Trace → Trace → Type 0
    Probed t u =
        let shell = shell_request target in
        ((passes is_success (env.fetch t shell) ≡ true) × (u ≡ fetched shell ∷ t))
        ⊎ ((passes is_refusal (env.fetch t shell) ≡ true) × IsApproved (fetched shell ∷ t) u)

    probe_shell-Probed : (t : Trace) → Returns (λ _. Probed t) (probe_shell env json target t)
    unfolding probe_shell
    probe_shell-Probed t =
        let shell = shell_request target in
        let after = λ (_ : Unit {0}) (u : Trace). Probed t u in
        let refuse = λ (response : Response).
          throw (shell_failed response.status (json.shown response.text)) in
        bind-Returns after
          (λ response u. (env.fetch t shell ≡ some response) × (u ≡ fetched shell ∷ t))
          (fetch env shell)
          (λ response.
            if eqb response.status 403
            then approve env json target
            else if is_success response
            then pure tt
            else refuse response)
          t (fetch-Returns env shell t)
          (λ response u (answered, sent).
            if-Returns after (eqb response.status 403) (approve env json target)
              (if is_success response then pure tt else refuse response) u
              (λ refused.
                subst (λ v. Returns after (approve env json target v)) (sym sent)
                  (weaken-Returns (λ _. IsApproved (fetched shell ∷ t)) after
                    (approve env json target (fetched shell ∷ t))
                    (λ _ v h. inr (ap (passes is_refusal) answered ∙ refused, h))
                    (approve-IsApproved (fetched shell ∷ t))))
              (λ _.
                if-Returns after (is_success response) (pure tt) (refuse response) u
                  (λ passed. inl (ap (passes is_success) answered ∙ passed, sent)) (λ _. tt)))

    -- What has been done and seen from the first trace to the second, when the checks return.
    pub record IsVerified (t u : Trace) : Type 0 where
      pub health : String
      pub made : String
      pub session : String
      pub shell : String
      pub healthy : Answered t (status_request target) health
      pub makes_workspace :
          Answered (fetched (status_request target) ∷ t) (workspace_request target) made
      pub makes_session :
          Answered
            (fetched (workspace_request target) ∷ fetched (status_request target) ∷ t)
            (session_request target)
            session
      pub before_run : Trace
      pub probed : Probed (opened env json target t) before_run
      pub runs : Answered before_run (shell_request target) shell
      pub ends : u ≡ fetched (shell_request target) ∷ before_run

    -- When the checks return, they have sent these requests and no others: the health check, the
    -- workspace, the session and the command; if the stub refused the command, the list of the permission
    -- requests and the answer to the first one of this session that it shows; and the command again. All were
    -- answered with success, but for the refusal. The result has the answers to the health check and
    -- to the last run.
    pub checks-IsVerified :
        (t : Trace)
        → Returns
            (λ result u.
              (v : IsVerified t u) × (result ≡ record { health = v.health; shell = v.shell }))
            (checks env json target t)
    unfolding checks
    checks-IsVerified t =
        let after = λ (result : Verified) (u : Trace).
          (v : IsVerified t u) × (result ≡ record { health = v.health; shell = v.shell }) in
        let last : String → Io Verified = λ h.
          assert_ok env json "shell" (shell_request target) >>= λ s.
          pure (record { health = h; shell = s }) in
        let probe = probe_shell env json target in
        let make = assert_ok env json "session create" (session_request target) in
        asserted-Returns after "health" (status_request target)
          (λ h.
            assert_ok env json "workspace create" (workspace_request target)
            >> (make >> (probe >> last h)))
          t
          (λ health healthy.
            asserted-Returns after "workspace create" (workspace_request target)
              (λ _. make >> (probe >> last health)) (fetched (status_request target) ∷ t)
              (λ made workspace.
                asserted-Returns after "session create" (session_request target)
                  (λ _. probe >> last health)
                  (fetched (workspace_request target) ∷ fetched (status_request target) ∷ t)
                  (λ session opening.
                    bind-Returns after (λ _. Probed (opened env json target t)) probe
                      (λ _. last health) (opened env json target t)
                      (probe_shell-Probed (opened env json target t))
                      (λ _ w probed.
                        asserted-Returns after "shell" (shell_request target)
                          (λ s. pure (record { health = health; shell = s })) w
                          (λ shell runs. (
                            record {
                              health = health;
                              made = made;
                              session = session;
                              shell = shell;
                              healthy = healthy;
                              makes_workspace = workspace;
                              makes_session = opening;
                              before_run = w;
                              probed = probed;
                              runs = runs;
                              ends = refl;
                            },
                            refl,
                          ))))))
