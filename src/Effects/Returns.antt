-- ===== src/Effects/Returns.antt =====
-- What holds when a computation returns: a statement about the result and the trace, with a rule
-- for a sequence.
use opencode_remote_ssh.Base.{
  Bool, true, false, if◌then◌else◌, some, arith, In, ℕ, String, List, ◌≡◌, refl, ◌∷◌, Bool-cases,
  Option-cases, inl, inr,
}
use opencode_remote_ssh.Types.{Result, ok, err}
use opencode_remote_ssh.Effects.Growth.{Keeps}
use opencode_remote_ssh.Effects.{
  Env, Effect, Trace, Io, ◌>>=◌, execute, unlink, remove_dir, write_file, executed, unlinked,
  removed_dir, wrote_file, Request, fetch, fetched,
}

-- `Q` after a result; nothing after a throw.
abbrev pub Returns : {A : Type 0} → (A → Trace → Type 0) → Result A × Trace → Type 0
Returns Q (ok a, t) = Q a t
Returns Q (err e, t) = Unit {0}

module _ {A B : Type 0} (S : B → Trace → Type 0) where
  bind-step :
      (Q : A → Trace → Type 0) (f : A → Io B) (r : Result A) (t : Trace)
      → Returns Q (r, t)
      → ((a : A) (u : Trace) → Q a u → Returns S (f a u))
      → Returns S (elim r [ ok a ↦ f a t | err e ↦ (err e, t) ])
  bind-step Q f (ok a) t h k = k a t h
  bind-step Q f (err e) t h k = tt

  pub bind-Returns :
      (Q : A → Trace → Type 0) (m : Io A) (f : A → Io B) (t : Trace)
      → Returns Q (m t)
      → ((a : A) (u : Trace) → Q a u → Returns S (f a u))
      → Returns S ((m >>= f) t)
  bind-Returns Q m f t h k = bind-step Q f (m t).0 (m t).1 h k

  -- A first part of which nothing is needed.
  pub any-Returns :
      (m : Io A) (f : A → Io B) (t : Trace)
      → ((a : A) (u : Trace) → Returns S (f a u))
      → Returns S ((m >>= f) t)
  any-Returns m f t k =
      bind-step (λ _ _. Unit {0}) f (m t).0 (m t).1 (every (m t).0) (λ a u _. k a u)
    where
      every : (r : Result A) → Returns (λ _ _. Unit {0}) (r, (m t).1)
      every (ok a) = tt
      every (err e) = tt

module _ {A : Type 0} where
  -- What holds of the trace however a computation ends holds when it returns.
  pub ends-Returns :
      (P : Trace → Type 0) (m : Io A) (t : Trace) → P (m t).1 → Returns (λ _ u. P u) (m t)
  ends-Returns P m t h = go (m t).0
    where
      go : (r : Result A) → Returns (λ _ u. P u) (r, (m t).1)
      go (ok a) = h
      go (err e) = tt

  -- The same from an equation on the result.
  pub run-Returns :
      (Q : A → Trace → Type 0) (m : Io A) (t : Trace)
      → ((a : A) → (m t).0 ≡ ok a → Q a (m t).1)
      → Returns Q (m t)
  run-Returns Q m t h = go (m t).0 h
    where
      go : (r : Result A) → ((a : A) → r ≡ ok a → Q a (m t).1) → Returns Q (r, (m t).1)
      go (ok a) k = k a refl
      go (err e) k = tt

pub weaken-Returns :
    {A : Type 0} (Q S : A → Trace → Type 0) (x : Result A × Trace)
    → ((a : A) (u : Trace) → Q a u → S a u)
    → Returns Q x
    → Returns S x
weaken-Returns Q S (ok a, t) f h = f a t h
weaken-Returns Q S (err e, t) f h = tt

pub if-Returns :
    {A : Type 0} (Q : A → Trace → Type 0) (c : Bool) (m k : Io A) (t : Trace)
    → (c ≡ true → Returns Q (m t))
    → (c ≡ false → Returns Q (k t))
    → Returns Q ((if c then m else k) t)
if-Returns Q true m k t h g = h refl
if-Returns Q false m k t h g = g refl

-- All that was done at `t` is in `u`.
abbrev pub Grows : Trace → Trace → Type 0
Grows t u = (e : Effect) → In e t → In e u

-- What was done before stays known.
pub growing-Returns :
    {A : Type 0} (Q : A → Trace → Type 0) (m : Io A) (t : Trace)
    → Keeps m
    → Returns Q (m t)
    → Returns (λ a u. Q a u × Grows t u) (m t)
growing-Returns {A} Q m t k h = go (m t).0 h
  where
    go : (r : Result A) → Returns Q (r, (m t).1) → Returns (λ a u. Q a u × Grows t u) (r, (m t).1)
    go (ok a) q = (q, λ e. k e t)
    go (err e) q = tt

-- An action with no result has been asked for, whether it works or not.
module _ (env : Env) where
  pub write_file-trace :
      (path content : String) (t : Trace)
      → (write_file env path content t).1 ≡ wrote_file path content ∷ t
  write_file-trace path content t = elim (Bool-cases (env.write_file t path content)) [
    | inl e ↦ rw (e, write_file) refl
    | inr e ↦ rw (e, write_file) refl
  ]

  pub unlink-trace : (path : String) (t : Trace) → (unlink env path t).1 ≡ unlinked path ∷ t
  unlink-trace path t = elim (Bool-cases (env.unlink t path)) [
    | inl e ↦ rw (e, unlink) refl
    | inr e ↦ rw (e, unlink) refl
  ]

  pub remove_dir-trace :
      (path : String) (t : Trace) → (remove_dir env path t).1 ≡ removed_dir path ∷ t
  remove_dir-trace path t = elim (Bool-cases (env.remove_dir t path)) [
    | inl e ↦ rw (e, remove_dir) refl
    | inr e ↦ rw (e, remove_dir) refl
  ]

  pub fetch-Returns :
      (r : Request) (t : Trace)
      → Returns
          (λ response u. (env.fetch t r ≡ some response) × (u ≡ fetched r ∷ t))
          (fetch env r t)
  fetch-Returns r t = run-Returns _ (fetch env r) t (λ response e. ground arith)

  pub execute-trace :
      (program : String) (args : List String) (timeout : ℕ) (t : Trace)
      → (execute env program args timeout t).1 ≡ executed program args timeout ∷ t
  execute-trace program args timeout t = elim (Option-cases (env.execute t program args timeout)) [
    | inl e ↦ rw (e, execute) refl
    | inr (a, e) ↦ rw (e, execute) refl
  ]

  pub execute-Keeps :
      (program : String) (args : List String) (timeout : ℕ)
      → Keeps (execute env program args timeout)
  execute-Keeps program args timeout e t i = rw execute-trace (inr i)
