-- ===== src/Tests/Interleaved.antt =====
-- A binding that is removed while it is being recovered.
use opencode_remote_ssh.Base.{string_dec, ◌≡◌, refl, ◌≢◌, some, lookup}
use opencode_remote_ssh.Types.{ok, WorkspaceBinding}
use opencode_remote_ssh.Leases.Holding.{holder}
use opencode_remote_ssh.Plugin.Connect.{remove_binding, store_recovered}
use opencode_remote_ssh.Plugin.Interleaved.{store_recovered-strays}
use opencode_remote_ssh.Tests.Sample.{config, binding, quiet}
use opencode_remote_ssh.Tests.Recovery.{plugin}
use opencode_remote_ssh.Plugin
use opencode_remote_ssh.Plugin.Remote
use opencode_remote_ssh.Ssh.Probe
use opencode_remote_ssh.Ssh.Recover
use opencode_remote_ssh.Ssh.Tunnel

-- With a tunnel on another port.
abbrev restarted : WorkspaceBinding
restarted = record binding { local_port = 39502; tunnel_pid = some 4242 }

removed_binding : (remove_binding quiet binding plugin).0 ≡ ok tt
unfolding remove_binding Remote.remove_remote_workspace string_dec Recover.close_recovered_binding
    Recover.teardown Tunnel.close_tunnel Probe.wait_for_port_closed Probe.wait_within
    Probe.wait_until Probe.is_port_reachable Plugin.delete_binding
removed_binding = refl

store_recovered-strays_example :
    let q =
      (store_recovered quiet config binding restarted (remove_binding quiet binding plugin).1).1 in
    (lookup "w1" q.bindings ≡ some restarted) × (holder q.leases "web" ≢ some "w1")
store_recovered-strays_example =
    store_recovered-strays quiet config binding restarted plugin refl refl removed_binding
