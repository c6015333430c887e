-- ===== src/Effects/Growth.antt =====
-- A computation adds to the trace and takes nothing back.
use opencode_remote_ssh.Base.{◌≡◌, inl, inr, In, ap, subst, sym}
use opencode_remote_ssh.Types.{Error}
use opencode_remote_ssh.Effects.{Effect, Trace, Io, try_catch, finally, ◌>>=◌}
use opencode_remote_ssh.Effects.Steps.{
  Result-cases, bind-ok, bind-err, try_catch-ok, try_catch-err, finally-trace,
}

-- What has been done stays in the trace.
abbrev pub Keeps : {A : Type 0} → Io A → Type 0
Keeps m = (e : Effect) (t : Trace) → In e t → In e (m t).1

move : (e : Effect) {t u : Trace} → t ≡ u → In e u → In e t
move e p = subst (In e) (sym p)

pub bind-Keeps :
    {A B : Type 0} (m : Io A) (f : A → Io B) → Keeps m → ((a : A) → Keeps (f a)) → Keeps (m >>= f)
bind-Keeps m f k h e t i = elim (Result-cases (m t).0) [
  | inl (a, r) ↦ move e (ap (λ r. r.1) (bind-ok m f t a r)) (h a e (m t).1 (k e t i))
  | inr (x, r) ↦ move e (ap (λ r. r.1) (bind-err m f t x r)) (k e t i)
]

pub try_catch-Keeps :
    {A : Type 0} (m : Io A) (h : Error → Io A)
    → Keeps m
    → ((x : Error) → Keeps (h x))
    → Keeps (try_catch m h)
try_catch-Keeps m h k c e t i = elim (Result-cases (m t).0) [
  | inl (a, r) ↦ move e (ap (λ r. r.1) (try_catch-ok m h t a r)) (k e t i)
  | inr (x, r) ↦ move e (ap (λ r. r.1) (try_catch-err m h t x r)) (c x e (m t).1 (k e t i))
]

pub finally-Keeps :
    {A : Type 0} (m : Io A) (f : Io (Unit {0})) → Keeps m → Keeps f → Keeps (finally m f)
finally-Keeps m f k c e t i = move e (finally-trace m f t) (c e (m t).1 (k e t i))
