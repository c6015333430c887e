-- ===== src/Plugin/Consistent/Rounds.antt =====
-- The loops of plugin/src/index.ts over a list of bindings that was taken before the first round.
use opencode_remote_ssh.Base.{
  Bool, filter, Bool-cases, inl, inr, String, ◌≡◌, refl, ◌≢◌, none, some, List, [], ◌∷◌, All,
  lookup, values, NodupKeys, KeyedBy, arith, sym, subst, ◌∙◌,
}
use opencode_remote_ssh.Types.{WorkspaceBinding}
use opencode_remote_ssh.Leases.{Leases}
use opencode_remote_ssh.State
use opencode_remote_ssh.State.{Bindings}
use opencode_remote_ssh.Plugin.{Plugin, Action, ◌>>=◌}
use opencode_remote_ssh.Plugin.Rules.{Ends-weaken, Always, bind-Ends}
use opencode_remote_ssh.Plugin.Consistent.{Consistent, Sound, Frame}
use opencode_remote_ssh.Plugin.Consistent.Keeping.{Kept, Keeping, Entry}

-- The bindings that a loop has not come to: each still stored, and each workspace once.
abbrev pub Snapshot : List WorkspaceBinding → Bindings → Type 0
Snapshot [] bindings = Unit {0}
Snapshot (b ∷ bs) bindings =
    (lookup b.workspace_id bindings ≡ some b)
    × All (λ c. c.workspace_id ≢ b.workspace_id) bs
    × Snapshot bs bindings

-- A round for another workspace leaves the rest as it was.
Snapshot-Frame :
    (bs : List WorkspaceBinding) (w : String) (before after : Bindings)
    → Frame w before after
    → All (λ c. c.workspace_id ≢ w) bs
    → Snapshot bs before
    → Snapshot bs after
Snapshot-Frame [] w before after f others s = tt
Snapshot-Frame (b ∷ bs) w before after f (other, others) (e, apart, s) =
    (f b.workspace_id other ∙ e, apart, Snapshot-Frame bs w before after f others s)

-- Behind a new first entry.
Snapshot-cons :
    (bs : List WorkspaceBinding) (k : String) (b : WorkspaceBinding) (t : Bindings)
    → lookup k t ≡ none
    → Snapshot bs t
    → All (λ c. c.workspace_id ≢ k) bs × Snapshot bs ((k, b) ∷ t)
unfolding lookup
Snapshot-cons [] k b t fresh s = (tt, tt)
Snapshot-cons (c ∷ cs) k b t fresh (e, apart, s) =
    let (others, rest) = Snapshot-cons cs k b t fresh s in
    let other : c.workspace_id ≢ k = λ same. ground arith in
    ((other, others), (ground arith, apart, rest))

Snapshot-values :
    (t : Bindings) → NodupKeys t → KeyedBy (λ b. b.workspace_id) t → Snapshot (values t) t
unfolding lookup values
Snapshot-values [] n k = tt
Snapshot-values ((w, b) ∷ t) (fresh, n) (own, k) =
    let (others, rest) = Snapshot-cons (values t) w b t fresh (Snapshot-values t n k) in
    (ground arith, subst (λ x. All (λ c. c.workspace_id ≢ x) (values t)) (sym own) others, rest)

Sound-KeyedBy :
    (leases : Leases) (t : Bindings)
    → NodupKeys t
    → Consistent leases t
    → KeyedBy (λ b. b.workspace_id) t
unfolding lookup
Sound-KeyedBy leases [] n good = tt
Sound-KeyedBy leases ((w, b) ∷ t) (fresh, n) good =
    ((good w b (ground arith)).own, Sound-KeyedBy leases t n (λ v c e. good v c (ground arith)))

pub list-Snapshot :
    (leases : Leases) (bindings : Bindings)
    → Sound leases bindings
    → Snapshot (State.list bindings) bindings
unfolding State.list
list-Snapshot leases bindings s =
    Snapshot-values bindings s.single (Sound-KeyedBy leases bindings s.single s.backed)

All-filter :
    (P : WorkspaceBinding → Type 0) (keep : WorkspaceBinding → Bool) (bs : List WorkspaceBinding)
    → All P bs
    → All P (filter keep bs)
All-filter P keep [] h = tt
All-filter P keep (b ∷ bs) (x, h) = elim (Bool-cases (keep b)) [
  | inl e ↦ rw e (x, All-filter P keep bs h)
  | inr e ↦ rw e (All-filter P keep bs h)
]

pub Snapshot-filter :
    (keep : WorkspaceBinding → Bool) (bs : List WorkspaceBinding) (bindings : Bindings)
    → Snapshot bs bindings
    → Snapshot (filter keep bs) bindings
Snapshot-filter keep [] bindings s = tt
Snapshot-filter keep (b ∷ bs) bindings (e, apart, s) = elim (Bool-cases (keep b)) [
  | inl h ↦ rw h (
    e,
    All-filter (λ c. c.workspace_id ≢ b.workspace_id) keep bs apart,
    Snapshot-filter keep bs bindings s,
  )
  | inr h ↦ rw h (Snapshot-filter keep bs bindings s)
]

-- One round and the rest of the loop.
pub round-Sound :
    {A B : Type 0} (b : WorkspaceBinding) (bs : List WorkspaceBinding) (m : Action A)
    (f : A → Action B) (p : Plugin)
    → Sound p.leases p.bindings
    → Snapshot (b ∷ bs) p.bindings
    → (Entry b p.bindings p.leases p.bindings → Keeping b.workspace_id p.bindings (m p))
    → ((a : A) (u : Plugin)
        → Sound u.leases u.bindings
        → Snapshot bs u.bindings
        → Always Sound (f a u))
    → Always Sound ((m >>= f) p)
round-Sound b bs m f p s (e, apart, rest) round after =
    let w = b.workspace_id in
    bind-Ends (λ _ q. Kept w p.bindings q.leases q.bindings) (λ _ q. Sound q.leases q.bindings)
      (λ q. Sound q.leases q.bindings) m f p
      (Ends-weaken (λ _ q. Kept w p.bindings q.leases q.bindings)
        (λ q. Kept w p.bindings q.leases q.bindings) (λ q. Sound q.leases q.bindings) (m p)
        (round ((s, λ v n. refl), e)) (λ q h. h.0))
      (λ a u h. after a u h.0 (Snapshot-Frame bs w p.bindings u.bindings h.1 apart rest))
