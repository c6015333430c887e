-- ===== src/Effects/Steps.antt =====
-- How a composed computation runs, from how its first part ended.
use opencode_remote_ssh.Base.{true, false, ◌∷◌, ◌≡◌, refl, ◌⊎◌, inl, inr}
use opencode_remote_ssh.Types.{Error, external, Result, ok, err}
use opencode_remote_ssh.State.{StateFile}
use opencode_remote_ssh.Effects.{
  Trace, Env, write_state, wrote_state, Io, try_catch, finally, ◌>>=◌,
}

pub Result-cases :
    {A : Type 0} (r : Result A) → ((a : A) × (r ≡ ok a)) ⊎ ((e : Error) × (r ≡ err e))
Result-cases (ok a) = inl (a, refl)
Result-cases (err e) = inr (e, refl)

module _ {A B : Type 0} (m : Io A) (f : A → Io B) (t : Trace) where
  pub bind-ok : (a : A) → (m t).0 ≡ ok a → (m >>= f) t ≡ f a (m t).1
  bind-ok a r = rw (r, ◌>>=◌)

  pub bind-err : (e : Error) → (m t).0 ≡ err e → (m >>= f) t ≡ (err e, (m t).1)
  bind-err e r = rw (r, ◌>>=◌)

module _ {A : Type 0} (m : Io A) (h : Error → Io A) (t : Trace) where
  pub try_catch-ok : (a : A) → (m t).0 ≡ ok a → try_catch m h t ≡ (ok a, (m t).1)
  try_catch-ok a r = rw (r, try_catch)

  pub try_catch-err : (e : Error) → (m t).0 ≡ err e → try_catch m h t ≡ h e (m t).1
  try_catch-err e r = rw (r, try_catch)

module _ {A : Type 0} (m : Io A) (f : Io (Unit {0})) (t : Trace) where
  pub finally-trace : (finally m f t).1 ≡ (f (m t).1).1
  finally-trace = elim (Result-cases (f (m t).1).0) [
    | inl (a, r) ↦ rw (r, finally)
    | inr (e, r) ↦ rw (r, finally)
  ]

pub write_state-ok :
    (env : Env) (file : StateFile) (t : Trace)
    → env.write_state t file ≡ true
    → write_state env file t ≡ (ok tt, wrote_state file ∷ t)
write_state-ok env file t e = rw (e, write_state) refl

pub write_state-err :
    (env : Env) (file : StateFile) (t : Trace)
    → env.write_state t file ≡ false
    → write_state env file t ≡ (err (external "call failed"), wrote_state file ∷ t)
write_state-err env file t e = rw (e, write_state) refl
