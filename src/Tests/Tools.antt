-- ===== src/Tests/Tools.antt =====
-- The tools that go through the bindings, and reuse for another host (plugin/src/index.ts).
use opencode_remote_ssh.Base.{
  List, map, All, values, ◌≡◌, refl, none, some, [], ◌∷◌, lookup, string_dec,
}
use opencode_remote_ssh.Types.{WorkspaceBinding, exclusive, ok, already_leased}
use opencode_remote_ssh.Leases
use opencode_remote_ssh.Leases.{Leases, grant}
use opencode_remote_ssh.Provider
use opencode_remote_ssh.Plugin.{Plugin}
use opencode_remote_ssh.Plugin.Connect.{try_reuse}
use opencode_remote_ssh.Plugin.Tools.{success, chosen_bindings, remote_disconnect}
use opencode_remote_ssh.State
use opencode_remote_ssh.Plugin.Disconnected.{IsDown, remote_disconnect-Reported}
use opencode_remote_ssh.Plugin.Dropped.{without, try_reuse-drops}
use opencode_remote_ssh.Tests.Sample.{quiet, config, binding, calm}
use opencode_remote_ssh.Tests.Recovery.{plugin}

-- "mail" is leased to the workspace "w2".
abbrev shared_out : Leases
shared_out = ("web", grant "web" "w1" exclusive 3) ∷ ("mail", grant "mail" "w2" exclusive 4) ∷ []

abbrev busy : Plugin
busy = record plugin { leases = shared_out }

try_reuse-drops_example :
    try_reuse calm config "default" (some "mail") binding busy
    ≡ (ok none, without calm config binding busy)
unfolding Provider.acquire_resolved lookup string_dec Leases.acquire Leases.get
try_reuse-drops_example =
    try_reuse-drops calm config binding (some "mail") (already_leased "mail") busy refl refl refl

abbrev chosen : List WorkspaceBinding
chosen = binding ∷ []

disconnected : (remote_disconnect quiet (some "w1") plugin).0 ≡ ok (success ("w1" ∷ []))
unfolding remote_disconnect chosen_bindings string_dec State.list values
    opencode_remote_ssh.Plugin.Connect.remove_binding
    opencode_remote_ssh.Plugin.Remote.remove_remote_workspace
    opencode_remote_ssh.Ssh.Recover.close_recovered_binding opencode_remote_ssh.Ssh.Recover.teardown
    opencode_remote_ssh.Ssh.Tunnel.close_tunnel opencode_remote_ssh.Ssh.Probe.wait_for_port_closed
    opencode_remote_ssh.Ssh.Probe.wait_within opencode_remote_ssh.Ssh.Probe.wait_until
    opencode_remote_ssh.Ssh.Probe.is_port_reachable opencode_remote_ssh.Plugin.delete_binding
disconnected = refl

remote_disconnect-Reported_example :
    ("w1" ∷ [] ≡ map (λ b. b.workspace_id) chosen)
    × All (IsDown (remote_disconnect quiet (some "w1") plugin).1) chosen
unfolding chosen_bindings string_dec State.list values
remote_disconnect-Reported_example =
    remote_disconnect-Reported quiet (some "w1") plugin (success ("w1" ∷ [])) disconnected
