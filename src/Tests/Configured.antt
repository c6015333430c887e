-- ===== src/Tests/Configured.antt =====
-- Configuring a workspace, and a state file that cannot be written (plugin/src/index.ts).
use package.text.Mathlib.TextEquality.{eq_iff}
use opencode_remote_ssh.Base.{
  after_tilde, insert, join, show_nat, to_set, trim, All, subst, ◌≡◌, refl, ◌≢◌, false, none, some,
  [], ◌∷◌, lookup, arith, string_dec,
}
use opencode_remote_ssh.Types.{
  ResolvedHost, WorkspaceInfo, exclusive, external, first_available, ok, err,
}
use opencode_remote_ssh.Leases
use opencode_remote_ssh.Leases.{grant}
use opencode_remote_ssh.Leases.Holding.{holder}
use opencode_remote_ssh.State
use opencode_remote_ssh.Effects.{Env, wrote_state}
use opencode_remote_ssh.Plugin.{Plugin}
use opencode_remote_ssh.Ssh.Args.{build_launch_command}
use opencode_remote_ssh.Ssh.Bootstrap.{BootstrapResult, bootstrap}
use opencode_remote_ssh.Plugin.Connect.{new_binding}
use opencode_remote_ssh.Plugin.Adapter.{
  with_selection, resolve_provider, configure_workspace, bind_selected,
}
use opencode_remote_ssh.Plugin.Configured.{HostsAreNamed, configure_workspace-selects}
use opencode_remote_ssh.Plugin.Unsaved.{bind_selected-unsaved}
use opencode_remote_ssh.Tests.Sample
use opencode_remote_ssh.Tests.Sample.{web, mail, config, web_lease}
use opencode_remote_ssh.Tests.Recovery.{plugin}
use opencode_remote_ssh.Tests.Reach.{opening, second}
use opencode_remote_ssh.Plugin
use opencode_remote_ssh.Provider
use opencode_remote_ssh.Ssh.Args
use opencode_remote_ssh.Ssh.Bootstrap
use opencode_remote_ssh.Ssh.Probe
use opencode_remote_ssh.Ssh.Tunnel

abbrev pub mail_selection : ResolvedHost
mail_selection = record {
  provider = "default";
  host = mail;
  labels = "linux" ∷ [];
  strategy = first_available;
}

abbrev configured : WorkspaceInfo
configured = with_selection opening config second mail_selection

abbrev held : Plugin
held = record plugin { leases = ("web", web_lease) ∷ ("mail", grant "mail" "w2" exclusive 0) ∷ [] }

sample-HostsAreNamed : HostsAreNamed config
unfolding lookup string_dec
sample-HostsAreNamed name p e =
    let same : Sample.provider ≡ p = ground arith in
    subst (λ x. All (λ c. c.name ≢ "") x.hosts) same
      (ground (arith, eq_iff "web" ""), (ground (arith, eq_iff "mail" ""), tt))

succeeds : configure_workspace opening config second plugin ≡ (ok configured, held)
unfolding configure_workspace lookup string_dec Plugin.acquire_resolved Provider.acquire_resolved
    to_set Leases.get Leases.acquire insert
succeeds = refl

second_named : second.id ≢ ""
second_named = ground (arith, eq_iff "w2" "")

configure_workspace-selects_example :
    (configured.id ≡ "w2")
    × ((r : ResolvedHost) × (resolve_provider opening config configured held ≡ (ok r, held))
        × (holder held.leases r.host.name ≡ some "w2"))
configure_workspace-selects_example =
    configure_workspace-selects opening config refl sample-HostsAreNamed second configured plugin
      held second_named succeeds

abbrev unwritable : Env
unwritable = record opening { write_state = λ t file. false }

abbrev boot : BootstrapResult
boot = record {
  remote_port = 39217;
  local_port = 39502;
  token = "f00d";
  install_root = "/root/.opencode-remote";
  remote_home = "/root";
  launch_command = build_launch_command "/root/.opencode-remote" 39217;
  health_url = "http://127.0.0.1:39502/global/health";
  tunnel_pid = some 4242;
}

booted : (bootstrap unwritable config "w2" mail_selection held.trace).0 ≡ ok boot
unfolding bootstrap Bootstrap.resolve_remote_home Bootstrap.exec_ssh string_dec trim
    Bootstrap.update_stub Bootstrap.remote_stub_hash Bootstrap.exec_ssh_allow_failure
    Bootstrap.install_stub Bootstrap.scp Bootstrap.upload_token Bootstrap.start_stub
    Tunnel.ensure_tunnel Tunnel.try_ports Tunnel.try_start_tunnel Probe.is_port_reachable
    Probe.wait_for_port_reachable Probe.wait_within Probe.wait_until Probe.wait_for_health
    Probe.is_health_reachable Args.allocate_initial_local_port Args.expand_install_root
    Args.build_launch_command show_nat after_tilde join
booted = refl

bind_selected-unsaved_example :
    let (r, q) = bind_selected unwritable config "w2" mail_selection held in
    (r ≡ err (external "call failed"))
    × (lookup "w2" q.bindings ≡ some (new_binding unwritable config "w2" mail_selection boot))
    × (Leases.get q.leases "mail" ≡ none)
    × (q.trace
        ≡ wrote_state (
            State.save
              (State.set held.bindings (new_binding unwritable config "w2" mail_selection boot)))
          ∷ (bootstrap unwritable config "w2" mail_selection held.trace).1)
unfolding lookup string_dec State.set insert
bind_selected-unsaved_example =
    bind_selected-unsaved unwritable config "w2" mail_selection boot held refl booted refl
