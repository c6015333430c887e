-- ===== src/Plugin/Consistent/Restart.antt =====
-- `rehydrateLeasesFromState` (plugin/src/index.ts): the leases are made again from the bindings.
use opencode_remote_ssh.Base.{
  ℕ, String, ◌≡◌, refl, ◌≢◌, Bool, Bool-cases, inl, inr, true, false, none, some, List, [], ◌∷◌,
  All, lookup, values, NodupKeys, lookup-insert, if◌then◌else◌, ◌==◌, arith, sym, subst, ap, ◌∙◌,
}
use opencode_remote_ssh.Types.{ok, WorkspaceBinding}
use opencode_remote_ssh.Leases
use opencode_remote_ssh.Leases.{Leases, grant}
use opencode_remote_ssh.Leases.Holding.{holder}
use opencode_remote_ssh.State
use opencode_remote_ssh.State.{Bindings, load, save}
use opencode_remote_ssh.State.Persistence.{IsValid, load-save}
use opencode_remote_ssh.Effects.{Env}
use opencode_remote_ssh.Plugin.{Plugin}
use opencode_remote_ssh.Plugin.Rules.{Always}
use opencode_remote_ssh.Plugin.Connect.{is_removed, restore_all, rehydrate_leases_from_state}
use opencode_remote_ssh.Plugin.Consistent.{Sound, Consistent-exclusive}

-- Bindings from which leases can be made: each as it should be, and no host twice.
pub record IsRestorable (bindings : Bindings) : Type 0 where
  pub single : NodupKeys bindings
  pub own : (w : String) (b : WorkspaceBinding) → lookup w bindings ≡ some b → b.workspace_id ≡ w
  pub named : (w : String) (b : WorkspaceBinding) → lookup w bindings ≡ some b → w ≢ ""
  pub live :
      (w : String) (b : WorkspaceBinding) → lookup w bindings ≡ some b → is_removed b.status ≡ false
  pub apart :
      (v w : String) (b c : WorkspaceBinding)
      → lookup v bindings ≡ some b
      → lookup w bindings ≡ some c
      → b.host ≡ c.host
      → v ≡ w

restored-other :
    (bs : List WorkspaceBinding) (time : ℕ) (leases : Leases) (h : String)
    → All (λ c. c.host ≢ h) bs
    → holder (restore_all bs time leases) h ≡ holder leases h
unfolding restore_all Leases.restore Leases.get
restored-other [] time leases h others = refl
restored-other (b ∷ bs) time leases h (other, others) =
    restored-other bs time _ h others ∙ step (is_removed b.status)
  where
    step :
        (gone : Bool)
        → holder
            (if gone
              then leases
              else (Leases.restore leases b.host b.workspace_id b.lease_mode none time).1)
            h
          ≡ holder leases h
    step true = refl
    step false =
        ground
          (arith, lookup-insert h b.host (grant b.host b.workspace_id b.lease_mode time) leases)

-- No binding is removed, and no host stands in two.
abbrev HostsOnce : Bindings → Type 0
HostsOnce [] = Unit {0}
HostsOnce ((_, b) ∷ t) =
    All (λ c. c.host ≢ b.host) (values t) × (is_removed b.status ≡ false) × HostsOnce t

restored-holds :
    (t : Bindings) (time : ℕ) (leases : Leases) (w : String) (b : WorkspaceBinding)
    → HostsOnce t
    → lookup w t ≡ some b
    → holder (restore_all (values t) time leases) b.host ≡ some b.workspace_id
unfolding lookup restore_all values Leases.restore Leases.get
restored-holds [] time leases w b once e = absurd (cc)
restored-holds ((k, c) ∷ t) time leases w b (others, live, once) e = elim (Bool-cases (w == k)) [
  | inl here ↦
      let same : c ≡ b = ground arith in
      subst (λ x. holder (restore_all (values t) time taken) x.host ≡ some x.workspace_id) same
        (restored-other (values t) time taken c.host others ∙ granted (is_removed c.status) live)
  | inr below ↦ restored-holds t time _ w b once (rw below at e)
]
  where
    taken : Leases
    taken =
        if is_removed c.status
        then leases
        else (Leases.restore leases c.host c.workspace_id c.lease_mode none time).1

    granted :
        (gone : Bool)
        → gone ≡ false
        → holder
            (if gone
              then leases
              else (Leases.restore leases c.host c.workspace_id c.lease_mode none time).1)
            c.host
          ≡ some c.workspace_id
    granted true e = absurd (cc)
    granted false e =
        ground (
          arith,
          lookup-insert c.host c.host (grant c.host c.workspace_id c.lease_mode time) leases,
        )

All-values :
    (P : WorkspaceBinding → Type 0) (t : Bindings)
    → NodupKeys t
    → ((w : String) (b : WorkspaceBinding) → lookup w t ≡ some b → P b)
    → All P (values t)
unfolding lookup values
All-values P [] n h = tt
All-values P ((k, b) ∷ t) (fresh, n) h =
    (h k b (ground arith), All-values P t n (λ w c e. h w c (ground arith)))

restorable-HostsOnce :
    (t : Bindings)
    → NodupKeys t
    → ((w : String) (b : WorkspaceBinding) → lookup w t ≡ some b → is_removed b.status ≡ false)
    → ((v w : String) (b c : WorkspaceBinding)
        → lookup v t ≡ some b
        → lookup w t ≡ some c
        → b.host ≡ c.host
        → v ≡ w)
    → HostsOnce t
unfolding lookup values
restorable-HostsOnce [] n live apart = tt
restorable-HostsOnce ((k, b) ∷ t) (fresh, n) live apart = (
  All-values (λ c. c.host ≢ b.host) t n
      (λ w c e same.
        let clash : w ≡ k = apart w k c b (ground arith) (ground arith) same in ground arith),
  live k b (ground arith),
  restorable-HostsOnce t n (λ w c e. live w c (ground arith))
      (λ v w c d e f same. apart v w c d (ground arith) (ground arith) same),
)

-- From bindings that are each as they should be, with no host twice, `rehydrateLeasesFromState`
-- leads to a `Sound` state, whatever the leases were.
pub rehydrate_leases_from_state-Sound :
    (env : Env) (p : Plugin)
    → IsRestorable p.bindings
    → Always Sound (rehydrate_leases_from_state env p)
unfolding rehydrate_leases_from_state State.list
rehydrate_leases_from_state-Sound env p r = record {
  single = r.single;
  backed = λ w b e. record {
    own = r.own w b e;
    named = r.named w b e;
    live = r.live w b e;
    held =
        restored-holds p.bindings (env.clock p.trace) (Leases.clear p.leases) w b
          (restorable-HostsOnce p.bindings r.single r.live r.apart) e
        ∙ ap some (r.own w b e);
  };
}

-- A `Sound` state can be restored.
Sound-IsRestorable :
    (leases : Leases) (bindings : Bindings) → Sound leases bindings → IsRestorable bindings
Sound-IsRestorable leases bindings s = record {
  single = s.single;
  own = λ w b e. (s.backed w b e).own;
  named = λ w b e. (s.backed w b e).named;
  live = λ w b e. (s.backed w b e).live;
  apart = λ v w b c. Consistent-exclusive leases bindings v w b c s.backed;
}

-- A restart at a `Sound` state, with every stored id, provider, host and token not empty: from the
-- file that was last written, the plugin comes up in a `Sound` state with the same bindings.
pub restart-Sound :
    (env : Env) (old : Plugin) (leases : Leases)
    → Sound old.leases old.bindings
    → IsValid old.bindings
    → let loaded = record old { leases = leases; bindings = load (save old.bindings) } in
      let (r, new) = rehydrate_leases_from_state env loaded in
      (r ≡ ok tt) × (new.bindings ≡ old.bindings) × Sound new.leases new.bindings
unfolding rehydrate_leases_from_state
restart-Sound env old leases s v =
    let same = load-save old.bindings v in
    let loaded : Plugin = record old { leases = leases; bindings = load (save old.bindings) } in
    (
      refl,
      same,
      rehydrate_leases_from_state-Sound env loaded
          (subst IsRestorable (sym same) (Sound-IsRestorable old.leases old.bindings s)),
    )
