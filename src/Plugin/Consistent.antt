-- ===== src/Plugin/Consistent.antt =====
-- The agreement of leases and bindings (plugin/src/index.ts).
pub mod Keeping
pub mod Reuse
pub mod Ready
pub mod Rounds
pub mod Loops
pub mod Create
pub mod Calls
pub mod Switch
pub mod Targets
pub mod Restart
use opencode_remote_ssh.Base.{
  ℕ, String, ◌≡◌, refl, ◌≢◌, ◌⊎◌, inl, inr, Bool, true, false, Option, none, some, lookup, insert,
  erase, NodupKeys, insert-NodupKeys, erase-NodupKeys, lookup-insert, lookup-erase, if◌then◌else◌,
  ◌==◌, string_dec, arith, Option-cases, ap, subst, sym,
}
use opencode_remote_ssh.Types.{ready, removed, Status, LeaseRecord, WorkspaceBinding}
use opencode_remote_ssh.Leases
use opencode_remote_ssh.Leases.{Leases}
use opencode_remote_ssh.Leases.Holding.{holder, get-release}
use opencode_remote_ssh.State.{Bindings}
use opencode_remote_ssh.Plugin.Connect.{is_removed}

-- A binding of workspace `w` that is in order: it has the id under which it is stored, it is not
-- removed, and its workspace holds the lease of its host.
pub record IsBacked (leases : Leases) (w : String) (b : WorkspaceBinding) : Type 0 where
  pub own : b.workspace_id ≡ w
  pub named : w ≢ ""
  pub live : is_removed b.status ≡ false
  pub held : holder leases b.host ≡ some w

-- Every stored binding is in order.
abbrev pub Consistent : Leases → Bindings → Type 0
Consistent leases bindings =
    (w : String) (b : WorkspaceBinding) → lookup w bindings ≡ some b → IsBacked leases w b

-- Where leases and bindings agree, two bindings for one host are bindings of one workspace.
pub Consistent-exclusive :
    (leases : Leases) (bindings : Bindings) (v w : String) (b c : WorkspaceBinding)
    → Consistent leases bindings
    → lookup v bindings ≡ some b
    → lookup w bindings ≡ some c
    → b.host ≡ c.host
    → v ≡ w
Consistent-exclusive leases bindings v w b c ok_ hb hc same =
    let x = (ok_ v b hb).held in
    let y = (ok_ w c hc).held in
    let z : holder leases c.host ≡ some v = subst (λ h. holder leases h ≡ some v) same x in cc

pub holder-release :
    (leases : Leases) (host w h v : String)
    → holder leases h ≡ some v
    → (v ≢ w) ⊎ (h ≢ host)
    → holder (Leases.release leases host w) h ≡ some v
unfolding Leases.get
holder-release leases host w h v held other = ground (arith, get-release leases host w h)

module _ (leases : Leases) (bindings : Bindings) (good : Consistent leases bindings) where
  pub Consistent-grow :
      (after : Leases)
      → ((h v : String) → holder leases h ≡ some v → holder after h ≡ some v)
      → Consistent after bindings
  Consistent-grow after keeps w b e =
      let g = good w b e in
      record { own = g.own; named = g.named; live = g.live; held = keeps b.host w g.held }

  -- Releasing a host for `w` is harmless where `w` has no binding to that host.
  pub Consistent-release :
      (host w : String)
      → ((b : WorkspaceBinding) → lookup w bindings ≡ some b → b.host ≢ host)
      → Consistent (Leases.release leases host w) bindings
  Consistent-release host w elsewhere v b e =
      let g = good v b e in
      record {
        own = g.own;
        named = g.named;
        live = g.live;
        held = holder-release leases host w b.host v g.held (elim (string_dec v w) [
          | no other ↦ inl other
          | yes same ↦ inr (elsewhere b (subst (λ x. lookup x bindings ≡ some b) same e))
        ]);
      }

  pub Consistent-erase : (w : String) → Consistent leases (erase w bindings)
  Consistent-erase w v b e = good v b (ground (arith, lookup-erase v w bindings))

  -- A binding and its lease go together.
  pub Consistent-drop :
      (host w : String) → Consistent (Leases.release leases host w) (erase w bindings)
  Consistent-drop host w v b e =
      let g = good v b (ground (arith, lookup-erase v w bindings)) in
      let other : v ≢ w = λ same. ground (arith, lookup-erase v w bindings) in
      record {
        own = g.own;
        named = g.named;
        live = g.live;
        held = holder-release leases host w b.host v g.held (inl other);
      }

  pub Consistent-insert :
      (w : String) (b : WorkspaceBinding)
      → IsBacked leases w b
      → Consistent leases (insert w b bindings)
  Consistent-insert w b backed v c e = elim (string_dec v w) [
    | no other ↦ good v c (ground (arith, lookup-insert v w b bindings))
    | yes same ↦
        let this : b ≡ c = ground (arith, lookup-insert v w b bindings) in
        subst (IsBacked leases v) this (subst (λ x. IsBacked leases x b) (sym same) backed)
  ]

-- The invariant of the plugin: one entry for each workspace, and each in order.
pub record Sound (leases : Leases) (bindings : Bindings) : Type 0 where
  pub single : NodupKeys bindings
  pub backed : Consistent leases bindings

-- The bindings of all other workspaces are those of `before`.
abbrev pub Frame : String → Bindings → Bindings → Type 0
Frame w before after = (v : String) → v ≢ w → lookup v after ≡ lookup v before

module _ (leases : Leases) (bindings : Bindings) (s : Sound leases bindings) where
  pub Sound-grow :
      (after : Leases)
      → ((h v : String) → holder leases h ≡ some v → holder after h ≡ some v)
      → Sound after bindings
  Sound-grow after keeps = record {
    single = s.single;
    backed = Consistent-grow leases bindings s.backed after keeps;
  }

  pub Sound-release :
      (host w : String)
      → ((b : WorkspaceBinding) → lookup w bindings ≡ some b → b.host ≢ host)
      → Sound (Leases.release leases host w) bindings
  Sound-release host w elsewhere = record {
    single = s.single;
    backed = Consistent-release leases bindings s.backed host w elsewhere;
  }

  pub Sound-erase : (w : String) → Sound leases (erase w bindings)
  Sound-erase w = record {
    single = erase-NodupKeys w bindings s.single;
    backed = Consistent-erase leases bindings s.backed w;
  }

  pub Sound-drop : (host w : String) → Sound (Leases.release leases host w) (erase w bindings)
  Sound-drop host w = record {
    single = erase-NodupKeys w bindings s.single;
    backed = Consistent-drop leases bindings s.backed host w;
  }

  pub Sound-insert :
      (w : String) (b : WorkspaceBinding) → IsBacked leases w b → Sound leases (insert w b bindings)
  Sound-insert w b backed = record {
    single = insert-NodupKeys w b bindings s.single;
    backed = Consistent-insert leases bindings s.backed w b backed;
  }

pub Frame-erase :
    (w : String) (before after : Bindings) → Frame w before after → Frame w before (erase w after)
Frame-erase w before after f v n = ground (arith, lookup-erase v w after, f v n)

pub Frame-insert :
    (w : String) (b : WorkspaceBinding) (before after : Bindings)
    → Frame w before after
    → Frame w before (insert w b after)
Frame-insert w b before after f v n = ground (arith, lookup-insert v w b after, f v n)
