-- ===== src/Effects.antt =====
-- What the plugin asks of its surroundings: HTTP requests, `ssh` and `scp`, processes, files, the
-- clock. The surroundings are a parameter, `Env`: each answer may depend on all that was done
-- before, so nothing is taken for granted about the network, the hosts or the user's machine.
-- Each call is recorded in a trace, the latest first.
pub mod Steps
pub mod Growth
pub mod Returns
use opencode_remote_ssh.Base.{
  ℕ, ◌≤◌, ◌<◌, String, Bool, true, false, ◌&&◌, Option, none, some, List, [], ◌∷◌, ltb,
  if◌then◌else◌,
}
use opencode_remote_ssh.Types.{Error, external, Result, ok, err}
use opencode_remote_ssh.State.{StateFile}

-- The bodies of the POST requests: a session (id, title, workspace), a workspace (id, name, provider,
-- host), a command for the shell, and the answer to a permission request.
pub data Payload : Type 0 where
  session : String → String → String → Payload
  workspace : String → String → String → String → Payload
  command reply : String → Payload

pub data Method : Type 0 where
  get post delete : Method

pub record Request : Type 0 where
  pub method : Method
  pub url : String
  pub token : Option String
  pub payload : Option Payload

-- `json` is `none` where `response.json()` throws.
pub record Response : Type 0 where
  pub status : ℕ
  pub text : String
  pub json : Option String

-- `response.ok`
abbrev pub is_success : Response → Bool
is_success r = ltb 199 r.status && ltb r.status 300

pub data Effect : Type 0 where
  fetched : Request → Effect
  executed : String → List String → ℕ → Effect
  spawned : List String → Effect
  killed : ℕ → Effect
  slept : ℕ → Effect
  clock_read : Effect
  made_temp_dir : Effect
  wrote_file : String → String → Effect
  unlinked : String → Effect
  removed_dir : String → Effect
  hashed_file : String → Effect
  drew_random : Effect
  wrote_state : StateFile → Effect

abbrev pub Trace : Type 0
Trace = List Effect

-- `none` and `false` stand for a call that throws; `spawn` gives the child's pid if it has one.
pub record Env : Type 0 where
  pub home : String
  pub process_id : ℕ
  pub clock : Trace → ℕ
  pub fetch : Trace → Request → Option Response
  pub execute : Trace → String → List String → ℕ → Option String
  pub spawn : Trace → List String → Option ℕ
  pub kill : Trace → ℕ → Bool
  pub exists : Trace → String → Bool
  pub make_temp_dir : Trace → Option String
  pub write_file : Trace → String → String → Bool
  pub unlink : Trace → String → Bool
  pub remove_dir : Trace → String → Bool
  pub hash_file : Trace → String → Option String
  pub random_hex : Trace → String
  pub write_state : Trace → StateFile → Bool

-- A computation that may throw.
abbrev pub Io : Type 0 → Type 0
Io A = Trace → Result A × Trace

module _ {A : Type 0} where
  abbrev pub pure : A → Io A
  pure a t = (ok a, t)

  abbrev pub throw : Error → Io A
  throw e t = (err e, t)

  -- `try { m } catch (e) { h(e) }`
  abbrev pub try_catch : Io A → (Error → Io A) → Io A
  try_catch m h t = let (r, t') = m t in elim r [ ok a ↦ (ok a, t') | err e ↦ h e t' ]

  -- A value that depends on what has been done so far.
  abbrev pub observe : (Trace → A) → Io A
  observe f t = (ok (f t), t)

  abbrev answer : Option A → Effect → Io A
  answer none e t = (err (external "call failed"), e ∷ t)
  answer (some a) e t = (ok a, e ∷ t)

infixl 5 ◌>>=◌ ◌>>◌
abbrev pub ◌>>=◌ : {A B : Type 0} → Io A → (A → Io B) → Io B
◌>>=◌ m f t = let (r, t') = m t in elim r [ ok a ↦ f a t' | err e ↦ (err e, t') ]

abbrev pub ◌>>◌ : {A B : Type 0} → Io A → Io B → Io B
m >> k = m >>= λ _. k

-- `try { m } finally { f }`: what `f` throws takes the place of what `m` did.
abbrev pub finally : {A : Type 0} → Io A → Io (Unit {0}) → Io A
finally m f t =
    let (r, t') = m t in let (q, t'') = f t' in elim q [ ok _ ↦ (r, t'') | err e ↦ (err e, t'') ]

abbrev done : Bool → Effect → Io (Unit {0})
done true e t = (ok tt, e ∷ t)
done false e t = (err (external "call failed"), e ∷ t)

module _ (env : Env) where
  abbrev pub fetch : Request → Io Response
  fetch request t = answer (env.fetch t request) (fetched request) t

  abbrev pub execute : String → List String → ℕ → Io String
  execute program args timeout t =
      answer (env.execute t program args timeout) (executed program args timeout) t

  abbrev pub spawn : List String → Io (Option ℕ)
  spawn args t = (ok (env.spawn t args), spawned args ∷ t)

  abbrev pub kill : ℕ → Io (Unit {0})
  kill pid t = done (env.kill t pid) (killed pid) t

  abbrev pub sleep : ℕ → Io (Unit {0})
  sleep ms t = (ok tt, slept ms ∷ t)

  abbrev pub read_clock : Io ℕ
  read_clock t = (ok (env.clock t), clock_read ∷ t)

  abbrev pub exists : String → Io Bool
  exists path t = (ok (env.exists t path), t)

  abbrev pub make_temp_dir : Io String
  make_temp_dir t = answer (env.make_temp_dir t) made_temp_dir t

  abbrev pub write_file : String → String → Io (Unit {0})
  write_file path content t = done (env.write_file t path content) (wrote_file path content) t

  abbrev pub unlink : String → Io (Unit {0})
  unlink path t = done (env.unlink t path) (unlinked path) t

  abbrev pub remove_dir : String → Io (Unit {0})
  remove_dir path t = done (env.remove_dir t path) (removed_dir path) t

  abbrev pub hash_file : String → Io String
  hash_file path t = answer (env.hash_file t path) (hashed_file path) t

  abbrev pub random_hex : Io String
  random_hex t = (ok (env.random_hex t), drew_random ∷ t)

  abbrev pub write_state : StateFile → Io (Unit {0})
  write_state file t = done (env.write_state t file) (wrote_state file) t

-- What the loops that wait assume of the clock: it does not go back, and a sleep takes time.
pub record IsSteady (env : Env) : Type 0 where
  pub forward : (t : Trace) (e : Effect) → env.clock t ≤ env.clock (e ∷ t)
  pub sleeps : (t : Trace) (ms : ℕ) → 0 < ms → env.clock t < env.clock (slept ms ∷ t)
