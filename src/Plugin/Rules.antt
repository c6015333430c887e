-- ===== src/Plugin/Rules.antt =====
-- How an action ends: a statement about the result and the state, with a rule for each combinator.
use opencode_remote_ssh.Base.{ap, ◌≡◌, refl, Bool, true, false, if◌then◌else◌}
use opencode_remote_ssh.Types.{Error, Result, ok, err}
use opencode_remote_ssh.Leases.{Leases}
use opencode_remote_ssh.State.{Bindings}
use opencode_remote_ssh.Effects.{Io}
use opencode_remote_ssh.Plugin.{Plugin, Action, try_catch, lift, ◌>>=◌}

-- `Q` after a result, `R` after a throw.
abbrev pub Ends :
    {A : Type 0} → (A → Plugin → Type 0) → (Plugin → Type 0) → Result A × Plugin → Type 0
Ends Q R (ok a, p) = Q a p
Ends Q R (err e, p) = R p

pub Ends-weaken :
    {A : Type 0} (Q : A → Plugin → Type 0) (R S : Plugin → Type 0) (x : Result A × Plugin)
    → Ends Q R x
    → ((q : Plugin) → R q → S q)
    → Ends Q S x
Ends-weaken Q R S (ok a, p) h f = h
Ends-weaken Q R S (err e, p) h f = f p h

module _ {A B : Type 0} (Q : A → Plugin → Type 0) (S : B → Plugin → Type 0)
    (R : Plugin → Type 0) where
  bind-step :
      (f : A → Action B) (r : Result A) (q : Plugin)
      → Ends Q R (r, q)
      → ((a : A) (u : Plugin) → Q a u → Ends S R (f a u))
      → Ends S R (elim r [ ok a ↦ f a q | err e ↦ (err e, q) ])
  bind-step f (ok a) q h k = k a q h
  bind-step f (err e) q h k = h

  pub bind-Ends :
      (m : Action A) (f : A → Action B) (p : Plugin)
      → Ends Q R (m p)
      → ((a : A) (u : Plugin) → Q a u → Ends S R (f a u))
      → Ends S R ((m >>= f) p)
  bind-Ends m f p h k = bind-step f (m p).0 (m p).1 h k

module _ {A : Type 0} (Q : A → Plugin → Type 0) (R S : Plugin → Type 0) where
  catch-step :
      (c : Error → Action A) (r : Result A) (q : Plugin)
      → Ends Q R (r, q)
      → ((e : Error) (u : Plugin) → R u → Ends Q S (c e u))
      → Ends Q S (elim r [ ok a ↦ (ok a, q) | err e ↦ c e q ])
  catch-step c (ok a) q h k = h
  catch-step c (err e) q h k = k e q h

  pub try_catch-Ends :
      (m : Action A) (c : Error → Action A) (p : Plugin)
      → Ends Q R (m p)
      → ((e : Error) (u : Plugin) → R u → Ends Q S (c e u))
      → Ends Q S (try_catch m c p)
  try_catch-Ends m c p h k = catch-step c (m p).0 (m p).1 h k

-- A lifted computation changes neither map.
pub lift-Ends :
    {A : Type 0} (P : Leases → Bindings → Type 0) (m : Io A) (p : Plugin)
    → P p.leases p.bindings
    → Ends (λ _ q. P q.leases q.bindings) (λ q. P q.leases q.bindings) (lift m p)
lift-Ends P m p h = go (m p.trace).0
  where
    go :
        {A : Type 0} (r : Result A)
        → Ends
            (λ _ q. P q.leases q.bindings)
            (λ q. P q.leases q.bindings)
            (r, record p { trace = (m p.trace).1 })
    go (ok a) = h
    go (err e) = h

-- The same statement about the two maps, however the action ends.
abbrev pub Always : {A : Type 0} → (Leases → Bindings → Type 0) → Result A × Plugin → Type 0
Always P = Ends (λ _ q. P q.leases q.bindings) (λ q. P q.leases q.bindings)

module _ {A B : Type 0} (P : Leases → Bindings → Type 0) where
  pub bind-Always :
      (m : Action A) (f : A → Action B) (p : Plugin)
      → Always P (m p)
      → ((a : A) (u : Plugin) → P u.leases u.bindings → Always P (f a u))
      → Always P ((m >>= f) p)
  bind-Always = bind-Ends _ _ _

pub if-Always :
    {A : Type 0} (P : Leases → Bindings → Type 0) (c : Bool) (m k : Action A) (p : Plugin)
    → (c ≡ true → Always P (m p))
    → (c ≡ false → Always P (k p))
    → Always P ((if c then m else k) p)
if-Always P true m k p h g = h refl
if-Always P false m k p h g = g refl

-- A lifted computation, with what its result satisfies.
pub lift-Returns :
    {A : Type 0} (P R : Leases → Bindings → Type 0) (V : A → Type 0) (m : Io A) (p : Plugin)
    → ((a : A) → (m p.trace).0 ≡ ok a → V a)
    → P p.leases p.bindings
    → (P p.leases p.bindings → R p.leases p.bindings)
    → Ends (λ a q. V a × P q.leases q.bindings) (λ q. R q.leases q.bindings) (lift m p)
lift-Returns {A} P R V m p returns h weaken = go (m p.trace).0 refl
  where
    go :
        (r : Result A)
        → (m p.trace).0 ≡ r
        → Ends
            (λ a q. V a × P q.leases q.bindings)
            (λ q. R q.leases q.bindings)
            (r, record p { trace = (m p.trace).1 })
    go (ok a) e = (returns a e, h)
    go (err x) e = weaken h

-- The result of a composed action, from that of its first part.
module _ {A B : Type 0} (m : Action A) (f : A → Action B) (p q : Plugin) where
  pub bind-ok : (a : A) → m p ≡ (ok a, q) → (m >>= f) p ≡ f a q
  bind-ok a e = ap (λ x. elim x.0 [ ok b ↦ f b x.1 | err y ↦ (err y, x.1) ]) e

  pub bind-err : (y : Error) → m p ≡ (err y, q) → (m >>= f) p ≡ (err y, q)
  bind-err y e = ap (λ x. elim x.0 [ ok b ↦ f b x.1 | err z ↦ (err z, x.1) ]) e

pub try_catch-err :
    {A : Type 0} (m : Action A) (h : Error → Action A) (p q : Plugin) (y : Error)
    → m p ≡ (err y, q)
    → try_catch m h p ≡ h y q
try_catch-err m h p q y e = ap (λ x. elim x.0 [ ok b ↦ (ok b, x.1) | err z ↦ h z x.1 ]) e

pub if-false :
    {A : Type 0} (c : Bool) (m k : Action A) (p : Plugin) → c ≡ false → (if c then m else k) p ≡ k p
if-false c m k p e = ap (λ d. (if d then m else k) p) e

-- The same, where what follows may use how the first part ran.
module _ {A B : Type 0} (Q : A → Plugin → Type 0) (S : B → Plugin → Type 0) (R : Plugin → Type 0)
    (m : Action A) (f : A → Action B) (p : Plugin) where
  ran-step :
      (x : Result A × Plugin)
      → m p ≡ x
      → Ends Q R x
      → ((a : A) (u : Plugin) → m p ≡ (ok a, u) → Q a u → Ends S R (f a u))
      → Ends S R (elim x.0 [ ok a ↦ f a x.1 | err e ↦ (err e, x.1) ])
  ran-step (ok a, u) e h k = k a u e h
  ran-step (err y, u) e h k = h

  pub ran-Ends :
      Ends Q R (m p)
      → ((a : A) (u : Plugin) → m p ≡ (ok a, u) → Q a u → Ends S R (f a u))
      → Ends S R ((m >>= f) p)
  ran-Ends h k = ran-step (m p) refl h k
