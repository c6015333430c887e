-- ===== src/Harness/Guarded.antt =====
-- A stub that permits nothing on its own, as scripts/verify-remote-lifecycle.mjs meets it.
use opencode_remote_ssh.Base.{
  String, Bool, ◌≡◌, refl, true, List, ◌∷◌, find, arith, Option, some, none, ◌∙◌, ap, eqb,
}
use opencode_remote_ssh.Types.{ok}
use opencode_remote_ssh.Effects.{Env, Io, Trace, Request, Response, is_success, fetched, ◌>>=◌}
use opencode_remote_ssh.Effects.Steps.{bind-ok}
use opencode_remote_ssh.Ssh.Probe.Waiting.{passes}
use opencode_remote_ssh.Harness.Checks.{
  Json, Permission, Target, reply_request, status_request, workspace_request, session_request,
  list_request, shell_request, asks, assert_ok,
}

abbrev pub is_refusal : Response → Bool
is_refusal r = eqb r.status 403

module _ (env : Env) (json : Json) (target : Target) where
  -- What has been done when the health check, the workspace and the session have been asked for.
  abbrev pub opened : Trace → Trace
  opened t =
      fetched (session_request target)
      ∷ fetched (workspace_request target)
      ∷ fetched (status_request target)
      ∷ t

  -- And when the command has been asked for, the permission requests have been listed and one of them
  -- has been answered.
  abbrev pub asked_for : Trace → Trace
  asked_for t = fetched (shell_request target) ∷ opened t

  abbrev pub listed_at : Trace → Trace
  listed_at t = fetched (list_request target) ∷ asked_for t

  abbrev pub approved_at : Permission → Trace → Trace
  approved_at item t = fetched (reply_request target item.id) ∷ listed_at t

  -- From here on, the stub makes the workspace and the session, refuses the command, lists a request for
  -- it, accepts the answer, and then runs the command.
  pub record IsGuarded (t : Trace) : Type 0 where
    pub healthy : passes is_success (env.fetch t (status_request target)) ≡ true
    pub makes_workspace :
        passes is_success
          (env.fetch (fetched (status_request target) ∷ t) (workspace_request target))
        ≡ true
    pub makes_session :
        passes is_success (
          env.fetch
            (fetched (workspace_request target) ∷ fetched (status_request target) ∷ t)
            (session_request target))
        ≡ true
    pub refuses : passes is_refusal (env.fetch (opened t) (shell_request target)) ≡ true
    pub answer : Response
    pub answers : env.fetch (asked_for t) (list_request target) ≡ some answer
    pub answer_is_success : is_success answer ≡ true
    pub items : List Permission
    pub item : Permission
    pub lists : json.listed answer.text ≡ some items
    pub finds : find (asks target) items ≡ some item
    pub accepts : passes is_success (env.fetch (listed_at t) (reply_request target item.id)) ≡ true
    pub allows : passes is_success (env.fetch (approved_at item t) (shell_request target)) ≡ true

-- A computation returns, with a trace.
abbrev pub Gives : {A : Type 0} → Io A → Trace → Trace → Type 0
Gives {A} m t u = (a : A) × (m t ≡ (ok a, u))

pub bind-Gives :
    {A B : Type 0} (m : Io A) (f : A → Io B) (t u v : Trace)
    → Gives m t u
    → ((a : A) → Gives (f a) u v)
    → Gives (m >>= f) t v
bind-Gives m f t u v (a, e) k =
    let (b, e') = k a in (b, bind-ok m f t a (ap (λ r. r.0) e) ∙ ap (λ r. f a r.1) e ∙ e')

module _ (env : Env) (json : Json) where
  pub passes-fetch :
      (test : Response → Bool) (r : Request) (t : Trace)
      → passes test (env.fetch t r) ≡ true
      → (answer : Response) × (env.fetch t r ≡ some answer) × (test answer ≡ true)
  passes-fetch test r t h = go (env.fetch t r) refl h
    where
      go :
          (a : Option Response)
          → env.fetch t r ≡ a
          → passes test a ≡ true
          → (answer : Response) × (env.fetch t r ≡ some answer) × (test answer ≡ true)
      go none e h = absurd cc
      go (some response) e h = (response, e, h)

  pub assert_ok-answer :
      (label : String) (r : Request) (t : Trace) (answer : Response)
      → env.fetch t r ≡ some answer
      → is_success answer ≡ true
      → assert_ok env json label r t ≡ (ok answer.text, fetched r ∷ t)
  unfolding assert_ok
  assert_ok-answer label r t answer e passed = ground arith

  pub assert_ok-success :
      (label : String) (r : Request) (t : Trace)
      → passes is_success (env.fetch t r) ≡ true
      → Gives (assert_ok env json label r) t (fetched r ∷ t)
  assert_ok-success label r t h =
      let (answer, e, passed) = passes-fetch is_success r t h in
      (answer.text, assert_ok-answer label r t answer e passed)
