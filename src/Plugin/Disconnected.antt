-- ===== src/Plugin/Disconnected.antt =====
-- What `remote-disconnect` (plugin/src/index.ts) has taken down when it reports a success.
use opencode_remote_ssh.Base.{
  String, ◌≡◌, refl, ◌≢◌, Option, none, some, List, [], ◌∷◌, All, lookup, erase, lookup-erase, map,
  arith, ap, subst,
}
use opencode_remote_ssh.Types.{WorkspaceBinding, Result, ok, err}
use opencode_remote_ssh.Leases
use opencode_remote_ssh.Leases.{Leases}
use opencode_remote_ssh.Leases.Holding.{holder, get-release}
use opencode_remote_ssh.Provider
use opencode_remote_ssh.State
use opencode_remote_ssh.State.{Bindings}
use opencode_remote_ssh.Effects.{Env, write_state}
use opencode_remote_ssh.Ssh.Recover.{close_recovered_binding}
use opencode_remote_ssh.Plugin.{Plugin, Action, pure, lift, ◌>>=◌, ◌>>◌, release, delete_binding}
use opencode_remote_ssh.Plugin.Rules.{Ends, Ends-weaken, Always, bind-Ends, bind-Always, lift-Ends}
use opencode_remote_ssh.Plugin.Remote.{remove_remote_workspace}
use opencode_remote_ssh.Plugin.Connect.{remove_binding}
use opencode_remote_ssh.Plugin.Tools.{
  Report, success, failure, remove_all, chosen_bindings, remote_disconnect,
}

-- The workspace `w` is not stored, and does not hold the host.
abbrev pub Gone : String → String → Leases → Bindings → Type 0
Gone w host leases bindings = (lookup w bindings ≡ none) × (holder leases host ≢ some w)

-- A binding is gone together with its lease.
abbrev pub IsDown : Plugin → WorkspaceBinding → Type 0
IsDown p b = Gone b.workspace_id b.host p.leases p.bindings

holder-release :
    (leases : Leases) (host v h w : String)
    → holder leases h ≢ some w
    → holder (Leases.release leases host v) h ≢ some w
unfolding Leases.get
holder-release leases host v h w free = ground (arith, get-release leases host v h)

pub released :
    (leases : Leases) (host w : String) → holder (Leases.release leases host w) host ≢ some w
unfolding Leases.get
released leases host w = ground (arith, get-release leases host w host)

lookup-erased :
    (v w : String) (bindings : Bindings)
    → lookup w bindings ≡ none
    → lookup w (erase v bindings) ≡ none
lookup-erased v w bindings e = ground (arith, lookup-erase w v bindings)

erased : (w : String) (bindings : Bindings) → lookup w (erase w bindings) ≡ none
erased w bindings = ground (arith, lookup-erase w w bindings)

both-Ends :
    {A : Type 0} (Q : A → Plugin → Type 0) (R : Plugin → Type 0) (P : Leases → Bindings → Type 0)
    (x : Result A × Plugin)
    → Ends Q R x
    → Always P x
    → Ends (λ a q. P q.leases q.bindings × Q a q) R x
both-Ends Q R P (ok a, q) h k = (k, h)
both-Ends Q R P (err e, q) h k = h

abbrev pub Anything : Plugin → Type 0
Anything p = Unit {0}

-- What holds of a result.
pub after-ok :
    {A : Type 0} (Q : A → Plugin → Type 0) (x : Result A × Plugin) (a : A)
    → Ends Q Anything x
    → x.0 ≡ ok a
    → Q a x.1
after-ok Q (ok b, p) a h e = let same : b ≡ a = cc in subst (λ c. Q c p) same h
after-ok Q (err f, p) a h e = absurd cc

any-Ends : {A : Type 0} (x : Result A × Plugin) → Ends (λ _. Anything) Anything x
any-Ends (ok a, q) = tt
any-Ends (err e, q) = tt

module _ (env : Env) where
  -- The end of `removeBinding`.
  drop-Always :
      (P : Leases → Bindings → Type 0) (host v : String) (p : Plugin)
      → P (Leases.release p.leases host v) (erase v p.bindings)
      → Always P ((release host v >> delete_binding env v) p)
  unfolding delete_binding State.delete Provider.release
  drop-Always P host v p h =
      lift-Ends P (write_state env (State.save (erase v p.bindings)))
        (record p { leases = Leases.release p.leases host v; bindings = erase v p.bindings }) h

  remove_binding-keeps :
      (b : WorkspaceBinding) (w h : String) (p : Plugin)
      → Gone w h p.leases p.bindings
      → Always (Gone w h) (remove_binding env b p)
  unfolding remove_binding
  remove_binding-keeps b w h p gone =
      bind-Always (Gone w h) (lift (remove_remote_workspace env b)) _ p
        (lift-Ends (Gone w h) (remove_remote_workspace env b) p gone)
        (λ _ q still.
          bind-Always (Gone w h) (lift (close_recovered_binding env b)) _ q
            (lift-Ends (Gone w h) (close_recovered_binding env b) q still)
            (λ _ u (out, free). drop-Always (Gone w h) b.host b.workspace_id u (
              lookup-erased b.workspace_id w u.bindings out,
              holder-release u.leases b.host b.workspace_id h w free,
            )))

  pub remove_binding-IsDown :
      (b : WorkspaceBinding) (p : Plugin)
      → Ends (λ _ q. IsDown q b) Anything (remove_binding env b p)
  unfolding remove_binding
  remove_binding-IsDown b p =
      let down = λ (_ : Unit {0}) (q : Plugin). IsDown q b in
      bind-Ends (λ _. Anything) down Anything (lift (remove_remote_workspace env b)) _ p
        (any-Ends (lift (remove_remote_workspace env b) p))
        (λ _ q _.
          bind-Ends (λ _. Anything) down Anything (lift (close_recovered_binding env b)) _ q
            (any-Ends (lift (close_recovered_binding env b) q))
            (λ _ u _.
              let end = (release b.host b.workspace_id >> delete_binding env b.workspace_id) u in
              Ends-weaken down (λ v. IsDown v b) Anything end
                (drop-Always (Gone b.workspace_id b.host) b.host b.workspace_id u
                  (erased b.workspace_id u.bindings, released u.leases b.host b.workspace_id))
                (λ _ _. tt)))

  abbrev rest_of : WorkspaceBinding → List WorkspaceBinding → Action (List String)
  rest_of b bs = do rest ← remove_all env bs; pure (b.workspace_id ∷ rest)

  remove_all-keeps :
      (bs : List WorkspaceBinding) (w h : String) (p : Plugin)
      → Gone w h p.leases p.bindings
      → Always (Gone w h) (remove_all env bs p)
  unfolding remove_all
  remove_all-keeps [] w h p gone = gone
  remove_all-keeps (b ∷ bs) w h p gone =
      bind-Always (Gone w h) (remove_binding env b) (λ _. rest_of b bs) p
        (remove_binding-keeps b w h p gone)
        (λ _ q still.
          bind-Always (Gone w h) (remove_all env bs) (λ rest. pure (b.workspace_id ∷ rest)) q
            (remove_all-keeps bs w h q still) (λ _ _ i. i))

  remove_all-IsDown :
      (bs : List WorkspaceBinding) (p : Plugin)
      → Ends
          (λ ids q. (ids ≡ map (λ b. b.workspace_id) bs) × All (IsDown q) bs)
          Anything
          (remove_all env bs p)
  unfolding remove_all
  remove_all-IsDown [] p = (refl, tt)
  remove_all-IsDown (b ∷ bs) p =
      let ids = λ (cs : List WorkspaceBinding). map (λ b. b.workspace_id) cs in
      let down = λ (cs : List WorkspaceBinding) (r : List String) (q : Plugin).
        (r ≡ ids cs) × All (IsDown q) cs in
      bind-Ends (λ _ q. IsDown q b) (down (b ∷ bs)) Anything (remove_binding env b)
        (λ _. rest_of b bs) p (remove_binding-IsDown b p)
        (λ _ q gone.
          bind-Ends (λ r u. IsDown u b × down bs r u) (down (b ∷ bs)) Anything (remove_all env bs)
            (λ rest. pure (b.workspace_id ∷ rest)) q
            (both-Ends (down bs) Anything (Gone b.workspace_id b.host) (remove_all env bs q)
              (remove_all-IsDown bs q) (remove_all-keeps bs b.workspace_id b.host q gone))
            (λ rest u (first, (same, others)).
              (ap (λ r. b.workspace_id ∷ r) same, (first, others))))

  -- What the report says: the ids of the chosen bindings, all of which are down, or that there
  -- was none.
  abbrev pub Reported : List WorkspaceBinding → Plugin → Report (List String) → Plugin → Type 0
  Reported chosen p (success ids) q =
      (ids ≡ map (λ b. b.workspace_id) chosen) × All (IsDown q) chosen
  Reported chosen p (failure message) q = (chosen ≡ []) × (q ≡ p)

  chosen-Reported :
      (bs : List WorkspaceBinding) (p : Plugin)
      → let m : Action (Report (List String)) = elim bs [
        | [] ↦ pure (failure "No active remote connection to disconnect.")
        | b ∷ cs ↦ do removed ← remove_all env (b ∷ cs); pure (success removed)
      ] in
        Ends (Reported bs p) Anything (m p)
  chosen-Reported [] p = (refl, refl)
  chosen-Reported (b ∷ bs) p =
      bind-Ends (λ ids q. (ids ≡ map (λ b. b.workspace_id) (b ∷ bs)) × All (IsDown q) (b ∷ bs))
        (Reported (b ∷ bs) p) Anything (remove_all env (b ∷ bs)) (λ removed. pure (success removed))
        p (remove_all-IsDown (b ∷ bs) p) (λ _ _ h. h)

  remote_disconnect-Ends :
      (workspace_id : Option String) (p : Plugin)
      → Ends
          (Reported (chosen_bindings workspace_id (State.list p.bindings)) p)
          Anything
          (remote_disconnect env workspace_id p)
  unfolding remote_disconnect
  remote_disconnect-Ends workspace_id p =
      chosen-Reported (chosen_bindings workspace_id (State.list p.bindings)) p

  -- When `remote-disconnect` does not throw, it reports the ids of all chosen bindings, of which
  -- none is stored any more or holds its host, or it reports that there was no such binding, and
  -- then nothing has changed.
  pub remote_disconnect-Reported :
      (workspace_id : Option String) (p : Plugin) (report : Report (List String))
      → (remote_disconnect env workspace_id p).0 ≡ ok report
      → Reported
          (chosen_bindings workspace_id (State.list p.bindings))
          p
          report
          (remote_disconnect env workspace_id p).1
  remote_disconnect-Reported workspace_id p report e =
      after-ok (Reported (chosen_bindings workspace_id (State.list p.bindings)) p)
        (remote_disconnect env workspace_id p) report (remote_disconnect-Ends workspace_id p) e
