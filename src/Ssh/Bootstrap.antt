-- ===== src/Ssh/Bootstrap.antt =====
-- plugin/src/ssh.ts: `bootstrap`, which installs and starts the stub on a host and the tunnel to it.
pub mod Token
pub mod Start
pub mod Outcome
use opencode_remote_ssh.Base.{
  ℕ, ◌*◌, String, ◌<>◌, Bool, true, false, Option, none, some, List, [], ◌∷◌, ◌++◌, truthy,
  if◌then◌else◌, ◌==◌, show_nat, trim,
}
use opencode_remote_ssh.Types.{SshConfig, ResolvedHost, stub_not_found, no_remote_home}
use opencode_remote_ssh.Config.{ResolvedPluginConfig}
use opencode_remote_ssh.Effects.{
  Env, Io, execute, exists, make_temp_dir, write_file, unlink, remove_dir, hash_file, random_hex,
  read_clock, pure, throw, try_catch, finally, observe, ◌>>=◌, ◌>>◌,
}
use opencode_remote_ssh.Ssh.Args.{
  target, identity_file, build_ssh_args, build_scp_args, expand_install_root, build_launch_command,
  build_remote_start_command, install_command, hash_command,
}
use opencode_remote_ssh.Ssh.Probe.{local_url, wait_for_health}
use opencode_remote_ssh.Ssh.Tunnel.{ensure_tunnel}

pub record BootstrapResult : Type 0 where
  pub remote_port : ℕ
  pub local_port : ℕ
  pub token : String
  pub install_root : String
  pub remote_home : String
  pub launch_command : String
  pub health_url : String
  pub tunnel_pid : Option ℕ

module _ (env : Env) (config : ResolvedPluginConfig) where
  unfoldable pub exec_ssh : List String → String → Io String
  exec_ssh ssh_args command = do
    stdout ← execute env "ssh" (ssh_args ++ (command ∷ [])) (config.tunnel.connect_timeout_ms * 2)
    pure (trim stdout)

  unfoldable pub exec_ssh_allow_failure : List String → String → Io String
  exec_ssh_allow_failure ssh_args command = try_catch (exec_ssh ssh_args command) (λ _. pure "")

  unfoldable pub scp : String → SshConfig → Option String → String → Io (Unit {0})
  scp local_path ssh identity destination = do
    args ← observe (λ t. build_scp_args env config t ssh identity)
    execute env "scp" (args ++ (local_path ∷ destination ∷ []))
        (config.tunnel.connect_timeout_ms * 4)
    pure tt

  unfoldable pub install_stub :
      String → List String → SshConfig → Option String → String → Io (Unit {0})
  install_stub local_path ssh_args ssh identity remote_path = do
    now ← read_clock env
    let temp = remote_path <> ".upload-" <> show_nat env.process_id <> "-" <> show_nat now
    scp local_path ssh identity (target ssh <> ":" <> temp)
    exec_ssh ssh_args (install_command temp remote_path)
    pure tt

  unfoldable pub remote_stub_hash : List String → String → Io (Option String)
  remote_stub_hash ssh_args remote_path = do
    output ← exec_ssh_allow_failure ssh_args (hash_command remote_path)
    pure (truthy (some (trim output)))

  unfoldable pub resolve_remote_home : SshConfig → Option String → Io String
  resolve_remote_home ssh identity = do
    ssh_args ← observe (λ t. build_ssh_args env config t ssh identity)
    home ← exec_ssh ssh_args "printf '%s' \"$HOME\""
    elim (truthy (some home)) [
      | none ↦ throw (no_remote_home ssh.user ssh.host)
      | some found ↦ pure found
    ]

  -- `remoteStubHash !== localStubHash`
  differs : Option String → String → Bool
  differs none hash = true
  differs (some other) hash = if other == hash then false else true

  -- The stub is uploaded only where the host has another one, or none.
  unfoldable pub update_stub : List String → SshConfig → Option String → String → Io (Unit {0})
  unfolding differs
  update_stub ssh_args ssh identity stub_binary = do
    found ← exists env config.stub_binary_path
    local ←
        (if found
          then hash_file env config.stub_binary_path
          else throw (stub_not_found config.stub_binary_path))
    remote ← remote_stub_hash ssh_args stub_binary
    elim (differs remote local) [
      | true ↦ install_stub config.stub_binary_path ssh_args ssh identity stub_binary
      | false ↦ pure tt
    ]

  -- The token travels in a private file of a fresh directory; both go, however the copy ends.
  -- `write_file` stands for `writeFileSync` and the `chmodSync` after it.
  unfoldable pub upload_token : String → String → SshConfig → Option String → String → Io (Unit {0})
  upload_token token_dir token ssh identity token_file =
      let token_path = token_dir <> "/stub.token" in
      do
        write_file env token_path token
        finally (scp token_path ssh identity (target ssh <> ":" <> token_file))
            (finally (unlink env token_path) (remove_dir env token_dir))

  -- Stopping an old stub and starting the new one.
  unfoldable pub start_stub : List String → String → ℕ → Io (Unit {0})
  start_stub ssh_args install_root remote_port = do
    exec_ssh_allow_failure ssh_args "pkill -f 'opencode-remote-stub' 2>/dev/null || true"
    exec_ssh ssh_args ("mkdir -p " <> install_root <> "/log")
    exec_ssh ssh_args (build_remote_start_command install_root remote_port)
    pure tt

  -- The part of `bootstrap` that puts the stub on the host and starts it.
  unfoldable pub deploy :
      ResolvedHost → Option String → List String → String → String → String → Io (Unit {0})
  unfolding update_stub upload_token start_stub
  deploy selected identity ssh_args install_root token token_dir =
      let ssh = selected.host.ssh in
      do
        exec_ssh ssh_args (
            "mkdir -p " <> install_root <> "/bin " <> install_root <> "/run " <> install_root
            <> "/log " <> install_root <> "/state")
        update_stub ssh_args ssh identity (install_root <> "/bin/opencode-remote-stub")
        upload_token token_dir token ssh identity (install_root <> "/run/stub.token")
        start_stub ssh_args install_root config.defaults.stub_port

  -- The part of `bootstrap` that makes the tunnel and waits for the stub.
  unfoldable pub connect :
      String → ResolvedHost → Option String → String → String → String → Io BootstrapResult
  connect workspace_id selected identity remote_home install_root token =
      let remote_port = config.defaults.stub_port in
      do
        tunnel ←
            ensure_tunnel env config selected.host.ssh identity remote_port workspace_id
              selected.host.name
        wait_for_health env config tunnel.local_port token
        pure (record {
          remote_port = remote_port;
          local_port = tunnel.local_port;
          token = token;
          install_root = install_root;
          remote_home = remote_home;
          launch_command = build_launch_command install_root remote_port;
          health_url = local_url tunnel.local_port "/global/health";
          tunnel_pid = tunnel.tunnel_pid;
        })

  unfoldable pub bootstrap : String → ResolvedHost → Io BootstrapResult
  unfolding deploy connect
  bootstrap workspace_id selected =
      let ssh = selected.host.ssh in
      let identity = identity_file env config ssh in
      do
        remote_home ← resolve_remote_home ssh identity
        let install_root = expand_install_root env config remote_home
        token ← random_hex env
        ssh_args ← observe (λ t. build_ssh_args env config t ssh identity)
        token_dir ← make_temp_dir env
        deploy selected identity ssh_args install_root token token_dir
        connect workspace_id selected identity remote_home install_root token
