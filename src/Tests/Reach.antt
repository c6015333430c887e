-- ===== src/Tests/Reach.antt =====
-- Sequences of calls of the plugin, restarts, and a state file that cannot be written.
use package.text.Mathlib.TextEquality.{eq_iff}
use opencode_remote_ssh.Base.{
  insert, to_set, trim, values, arith, String, ◌≡◌, refl, false, true, Bool, any, if◌then◌else◌,
  none, some, [], ◌∷◌, lookup, string_dec,
}
use opencode_remote_ssh.Types.{text, WorkspaceInfo, WorkspaceBinding, ok}
use opencode_remote_ssh.Leases
use opencode_remote_ssh.Leases.{Leases}
use opencode_remote_ssh.Leases.Holding.{holder}
use opencode_remote_ssh.State.{load, save}
use opencode_remote_ssh.Effects.{Env, Trace, spawned}
use opencode_remote_ssh.Plugin.{Plugin}
use opencode_remote_ssh.Plugin.Connect.{is_removed, rehydrate_leases_from_state}
use opencode_remote_ssh.Plugin.Consistent.{Sound}
use opencode_remote_ssh.Plugin.Consistent.Restart.{restart-Sound}
use opencode_remote_ssh.Plugin.Reach.{
  create, tool_status, exec, Reach, here, after, reachable-exclusive,
}
use opencode_remote_ssh.Tests.Sample.{config, binding, calm}
use opencode_remote_ssh.Tests.Recovery.{plugin, bindings-Sound}
use opencode_remote_ssh.Tests.Storage.{bindings_sample-IsValid}
use opencode_remote_ssh.Plugin
use opencode_remote_ssh.Plugin.Adapter
use opencode_remote_ssh.Plugin.Connect
use opencode_remote_ssh.Plugin.Tools
use opencode_remote_ssh.Provider
use opencode_remote_ssh.Ssh.Args
use opencode_remote_ssh.Ssh.Bootstrap
use opencode_remote_ssh.Ssh.Probe
use opencode_remote_ssh.Ssh.Recover
use opencode_remote_ssh.Ssh.Tunnel
use opencode_remote_ssh.State

-- Nothing answers until a tunnel has been spawned.
abbrev has_spawned : Trace → Bool
has_spawned t = any (λ e. elim e [ spawned args ↦ true | _ ↦ false ]) t

abbrev pub opening : Env
opening = record calm { fetch = λ t r. if has_spawned t then calm.fetch t r else none }

abbrev pub second : WorkspaceInfo
second = record {
  id = "w2";
  type = "ssh-provider";
  name = none;
  extra = some (("provider", text "default") ∷ []);
}

-- A second workspace is made, and the status is asked for.
abbrev later : Plugin
later = exec opening config tool_status (exec opening config (create second) plugin)

later-Reach : Reach opening config plugin later
unfolding lookup string_dec
later-Reach =
    after (after here (create second) (ground (arith, eq_iff "w2" ""), refl)) tool_status tt

abbrev second_binding : WorkspaceBinding
second_binding = record binding {
  workspace_id = "w2";
  host = "mail";
  local_port = 39502;
  token = "f00d";
  tunnel_pid = some 4242;
  session_id = none;
}

bound : lookup "w2" later.bindings ≡ some second_binding
unfolding lookup string_dec exec Tools.remote_status Tools.status_entries State.list values
    Adapter.create_workspace Plugin.acquire_resolved Provider.acquire_resolved to_set Leases.get
    Leases.acquire Bootstrap.bootstrap Bootstrap.resolve_remote_home Bootstrap.exec_ssh trim
    Bootstrap.update_stub Bootstrap.remote_stub_hash Bootstrap.exec_ssh_allow_failure
    Bootstrap.install_stub Bootstrap.scp Bootstrap.upload_token Bootstrap.start_stub
    Tunnel.ensure_tunnel Tunnel.try_ports Tunnel.try_start_tunnel Probe.is_port_reachable
    Probe.wait_for_port_reachable Probe.wait_within Probe.wait_until Probe.wait_for_health
    Probe.is_health_reachable Plugin.set_binding State.set insert Tools.status_entry
    Connect.ensure_binding_ready Recover.ensure_recovered_binding Args.allocate_initial_local_port
bound = refl

reachable-exclusive_example :
    (second_binding.workspace_id ≡ "w2")
    × (is_removed second_binding.status ≡ false)
    × (holder later.leases "mail" ≡ some "w2")
    × ((v : String) (c : WorkspaceBinding)
        → lookup v later.bindings ≡ some c
        → c.host ≡ "mail"
        → v ≡ "w2")
reachable-exclusive_example =
    reachable-exclusive opening config refl (λ _ _. refl) bindings-Sound later-Reach "w2"
      second_binding bound

restart-Sound_example :
    let loaded : Plugin = record plugin { leases = []; bindings = load (save plugin.bindings) } in
    let (r, new) = rehydrate_leases_from_state calm loaded in
    (r ≡ ok tt) × (new.bindings ≡ plugin.bindings) × Sound new.leases new.bindings
restart-Sound_example = restart-Sound calm plugin [] bindings-Sound bindings_sample-IsValid
