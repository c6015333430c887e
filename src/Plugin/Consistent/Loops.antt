-- ===== src/Plugin/Consistent/Loops.antt =====
-- The tools of plugin/src/index.ts that go through all bindings, and the invariant.
use opencode_remote_ssh.Base.{
  inl, inr, truthy, ◌==◌, String, ◌≡◌, refl, Option, none, some, List, [], ◌∷◌, Option-cases, any,
}
use opencode_remote_ssh.Types.{exclusive, WorkspaceBinding}
use opencode_remote_ssh.Config.{ResolvedPluginConfig}
use opencode_remote_ssh.State
use opencode_remote_ssh.State.{Bindings}
use opencode_remote_ssh.Effects.{Env}
use opencode_remote_ssh.Plugin.{Plugin, Action, pure, ◌>>=◌, ◌>>◌}
use opencode_remote_ssh.Plugin.Rules.{Ends-weaken, Always, bind-Ends, bind-Always}
use opencode_remote_ssh.Plugin.Connect.{
  ensure_binding_ready, remove_binding, try_reuse, reuse_first, find_reusable_binding,
}
use opencode_remote_ssh.Plugin.Tools.{
  status_entry, status_entries, remote_status, ready_all, remote_workspace_list, remove_all,
  is_connected, remote_workspace_remove, remote_disconnect, chosen_bindings, Report, success,
  failure,
}
use opencode_remote_ssh.Plugin.Consistent.{Sound}
use opencode_remote_ssh.Plugin.Consistent.Keeping.{Kept, remove_binding-Keeping}
use opencode_remote_ssh.Plugin.Consistent.Reuse.{try_reuse-Keeping}
use opencode_remote_ssh.Plugin.Consistent.Ready.{ensure_binding_ready-Keeping, status_entry-Keeping}
use opencode_remote_ssh.Plugin.Consistent.Rounds.{
  Snapshot, Snapshot-filter, list-Snapshot, round-Sound,
}

module _ (env : Env) where
  -- `remote-disconnect`, for the bindings that it has chosen.
  remove_all-Sound :
      (bs : List WorkspaceBinding) (p : Plugin)
      → Sound p.leases p.bindings
      → Snapshot bs p.bindings
      → Always Sound (remove_all env bs p)
  unfolding remove_all
  remove_all-Sound [] p s now = s
  remove_all-Sound (b ∷ bs) p s now =
      round-Sound b bs (remove_binding env b)
        (λ (_ : Unit {0}). do rest ← remove_all env bs; pure (b.workspace_id ∷ rest)) p s now
        (λ entry. remove_binding-Keeping env b p.bindings p entry.0)
        (λ _ u t rest.
          bind-Always Sound (remove_all env bs) (λ ids. pure (b.workspace_id ∷ ids)) u
            (remove_all-Sound bs u t rest) (λ _ v i. i))

  disconnect-Sound :
      (bs : List WorkspaceBinding) (p : Plugin)
      → Sound p.leases p.bindings
      → Snapshot bs p.bindings
      → let m : Action (Report (List String)) = elim bs [
        | [] ↦ pure (failure "No active remote connection to disconnect.")
        | b ∷ cs ↦ do removed ← remove_all env (b ∷ cs); pure (success removed)
      ] in
        Always Sound (m p)
  disconnect-Sound [] p s now = s
  disconnect-Sound (b ∷ bs) p s now =
      bind-Always Sound (remove_all env (b ∷ bs)) (λ removed. pure (success removed)) p
        (remove_all-Sound (b ∷ bs) p s now) (λ _ v i. i)

  chosen-Snapshot :
      (workspace_id : Option String) (bs : List WorkspaceBinding) (bindings : Bindings)
      → Snapshot bs bindings
      → Snapshot (chosen_bindings workspace_id bs) bindings
  unfolding chosen_bindings
  chosen-Snapshot workspace_id bs bindings s = elim (Option-cases (truthy workspace_id)) [
    | inl none_given ↦ rw (none_given, chosen_bindings) s
    | inr (id, given) ↦
        rw (given, chosen_bindings) (Snapshot-filter (λ b. b.workspace_id == id) bs bindings s)
  ]

  -- For one workspace and for all of them, `remote-disconnect` leads from a `Sound` state to one,
  -- whether it throws or not.
  pub remote_disconnect-Sound :
      (workspace_id : Option String) (p : Plugin)
      → Sound p.leases p.bindings
      → Always Sound (remote_disconnect env workspace_id p)
  unfolding remote_disconnect
  remote_disconnect-Sound workspace_id p s =
      disconnect-Sound (chosen_bindings workspace_id (State.list p.bindings)) p s (
        chosen-Snapshot workspace_id (State.list p.bindings) p.bindings
          (list-Snapshot p.leases p.bindings s))

found-Sound :
    (found : Option WorkspaceBinding) (others : Action (Option WorkspaceBinding)) (u : Plugin)
    → Sound u.leases u.bindings
    → Always Sound (others u)
    → let m : Action (Option WorkspaceBinding) = elim found [
      | some r ↦ pure (some r)
      | none ↦ others
    ] in
      Always Sound (m u)
found-Sound (some r) others u s h = s
found-Sound none others u s h = h

module _ (env : Env) (config : ResolvedPluginConfig)
    (mode : config.defaults.lease_mode ≡ exclusive) where
  reuse_first-Sound :
      (name : String) (host : Option String) (bs : List WorkspaceBinding) (p : Plugin)
      → Sound p.leases p.bindings
      → Snapshot bs p.bindings
      → Always Sound (reuse_first env config name host bs p)
  unfolding reuse_first
  reuse_first-Sound name host [] p s now = s
  reuse_first-Sound name host (b ∷ bs) p s now =
      round-Sound b bs (try_reuse env config name host b)
        (λ found. elim found [
          | some r ↦ pure (some r)
          | none ↦ reuse_first env config name host bs
        ])
        p s now (try_reuse-Keeping env config mode b p.bindings name host p)
        (λ found u t rest.
          found-Sound found (reuse_first env config name host bs) u t
            (reuse_first-Sound name host bs u t rest))

  -- In exclusive mode, `findReusableBinding` leads from a `Sound` state to one, whether it throws
  -- or not, whatever the network and the hosts do.
  pub find_reusable_binding-Sound :
      (name : String) (host : Option String) (p : Plugin)
      → Sound p.leases p.bindings
      → Always Sound (find_reusable_binding env config name host p)
  unfolding find_reusable_binding
  find_reusable_binding-Sound name host p s =
      reuse_first-Sound name host (State.list p.bindings) p s (list-Snapshot p.leases p.bindings s)

  ready_all-Sound :
      (bs : List WorkspaceBinding) (p : Plugin)
      → Sound p.leases p.bindings
      → Snapshot bs p.bindings
      → Always Sound (ready_all env config bs p)
  unfolding ready_all
  ready_all-Sound [] p s now = s
  ready_all-Sound (b ∷ bs) p s now =
      round-Sound b bs (ensure_binding_ready env config b)
        (λ r. do rest ← ready_all env config bs; pure (r ∷ rest)) p s now
        (ensure_binding_ready-Keeping env config mode b p.bindings p)
        (λ r u t rest.
          bind-Always Sound (ready_all env config bs) (λ rs. pure (r ∷ rs)) u
            (ready_all-Sound bs u t rest) (λ _ v i. i))

  -- In exclusive mode, `remote-workspace-list` leads from a `Sound` state to one, whether it throws
  -- or not.
  pub remote_workspace_list-Sound :
      (p : Plugin) → Sound p.leases p.bindings → Always Sound (remote_workspace_list env config p)
  unfolding remote_workspace_list
  remote_workspace_list-Sound p s =
      ready_all-Sound (State.list p.bindings) p s (list-Snapshot p.leases p.bindings s)

  status_entries-Sound :
      (bs : List WorkspaceBinding) (p : Plugin)
      → Sound p.leases p.bindings
      → Snapshot bs p.bindings
      → Always Sound (status_entries env config bs p)
  unfolding status_entries
  status_entries-Sound [] p s now = s
  status_entries-Sound (b ∷ bs) p s now =
      round-Sound b bs (status_entry env config b)
        (λ x. do rest ← status_entries env config bs; pure (x ∷ rest)) p s now
        (status_entry-Keeping env config mode b p.bindings p)
        (λ x u t rest.
          bind-Always Sound (status_entries env config bs) (λ xs. pure (x ∷ xs)) u
            (status_entries-Sound bs u t rest) (λ _ v i. i))

  -- In exclusive mode, `remote-status` leads from a `Sound` state to one, whether it throws or not.
  pub remote_status-Sound :
      (p : Plugin) → Sound p.leases p.bindings → Always Sound (remote_status env config p)
  unfolding remote_status
  remote_status-Sound p s =
      bind-Always Sound (status_entries env config (State.list p.bindings))
        (λ entries. pure (record { connected = any is_connected entries; workspaces = entries })) p
        (status_entries-Sound (State.list p.bindings) p s (list-Snapshot p.leases p.bindings s))
        (λ _ v i. i)

-- For a workspace that has a binding, and for one that has none, `remote-workspace-remove` leads from
-- a `Sound` state to one, whether it throws or not.
pub remote_workspace_remove-Sound :
    (env : Env) (workspace_id : String) (p : Plugin)
    → Sound p.leases p.bindings
    → Always Sound (remote_workspace_remove env workspace_id p)
unfolding remote_workspace_remove
remote_workspace_remove-Sound env workspace_id p s = go (State.get p.bindings workspace_id)
  where
    go :
        (found : Option WorkspaceBinding)
        → let m : Action (Report String) = elim found [
          | none ↦ pure (failure "Workspace not found")
          | some b ↦ do remove_binding env b; pure (success workspace_id)
        ] in
          Always Sound (m p)
    go none = s
    go (some b) =
        let K = Kept b.workspace_id p.bindings in
        bind-Ends (λ _ q. K q.leases q.bindings) (λ _ q. Sound q.leases q.bindings)
          (λ q. Sound q.leases q.bindings) (remove_binding env b)
          (λ (_ : Unit {0}). pure (success workspace_id)) p
          (Ends-weaken (λ _ q. K q.leases q.bindings) (λ q. K q.leases q.bindings)
            (λ q. Sound q.leases q.bindings) (remove_binding env b p)
            (remove_binding-Keeping env b p.bindings p (s, λ v n. refl)) (λ q h. h.0))
          (λ _ u h. h.0)
