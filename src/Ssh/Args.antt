-- ===== src/Ssh/Args.antt =====
-- plugin/src/ssh.ts: the command lines and texts that `SSHManager` builds.
use Prim.Native.Char.{Char, code}
use opencode_remote_ssh.Base.{
  ℕ, ◌+◌, ◌-◌, ◌*◌, ◌/◌, ◌%◌, ◌^◌, String, ◌<>◌, Option, none, some, List, [], ◌∷◌, ◌++◌, truthy,
  if◌then◌else◌, eqb, ltb, show_nat, join, after_tilde, replace_quotes,
}
use opencode_remote_ssh.Types.{SshConfig}
use opencode_remote_ssh.Config.{ResolvedPluginConfig}
use opencode_remote_ssh.Effects.{Env, Trace}

-- `port || 22`
abbrev pub port_or_22 : Option ℕ → ℕ
port_or_22 none = 22
port_or_22 (some p) = if eqb p 0 then 22 else p

abbrev pub target : SshConfig → String
target ssh = ssh.user <> "@" <> ssh.host

module _ (env : Env) (config : ResolvedPluginConfig) where
  -- `sshConfig.identityFile ? sshConfig.identityFile.replace(/^~\//, `${HOME}/`) : undefined`
  unfoldable pub identity_file : SshConfig → Option String
  identity_file ssh = elim (truthy ssh.identity_file) [
    | none ↦ none
    | some path ↦ elim (after_tilde path) [
      | none ↦ some path
      | some rest ↦ some (env.home <> "/" <> rest)
    ]
  ]

  -- The option for the key, if there is such a file.
  identity_args : Trace → Option String → List String
  identity_args t none = []
  identity_args t (some path) = if env.exists t path then "-i" ∷ path ∷ [] else []

  known_hosts : String
  known_hosts = "UserKnownHostsFile=" <> env.home <> "/.ssh/known_hosts"

  -- `if (sshConfig.proxyJump) args.push("-J", …)`
  jump_args : SshConfig → List String
  jump_args ssh = elim (truthy ssh.proxy_jump) [ none ↦ [] | some jump ↦ "-J" ∷ jump ∷ [] ]

  unfoldable pub build_ssh_args : Trace → SshConfig → Option String → List String
  unfolding identity_args known_hosts jump_args
  build_ssh_args t ssh identity =
      ("-o"
        ∷ "BatchMode=yes"
        ∷ "-o"
        ∷ "NumberOfPasswordPrompts=0"
        ∷ "-o"
        ∷ "StrictHostKeyChecking=accept-new"
        ∷ "-o"
        ∷ known_hosts
        ∷ "-o"
        ∷ ("ConnectTimeout=" <> show_nat ((config.tunnel.connect_timeout_ms + 999) / 1000))
        ∷ "-p"
        ∷ show_nat (port_or_22 ssh.port)
        ∷ [])
      ++ (identity_args t identity ++ (jump_args ssh ++ (target ssh ∷ [])))

  unfoldable pub build_scp_args : Trace → SshConfig → Option String → List String
  unfolding identity_args known_hosts
  build_scp_args t ssh identity =
      ("-o"
        ∷ "BatchMode=yes"
        ∷ "-o"
        ∷ "NumberOfPasswordPrompts=0"
        ∷ "-o"
        ∷ "StrictHostKeyChecking=accept-new"
        ∷ "-o"
        ∷ known_hosts
        ∷ "-P"
        ∷ show_nat (port_or_22 ssh.port)
        ∷ [])
      ++ (identity_args t identity ++ (elim (truthy ssh.proxy_jump) [
        | none ↦ []
        | some jump ↦ "-o" ∷ ("ProxyJump=" <> jump) ∷ []
      ]))

  -- The command line of the tunnel, in `tryStartTunnel`.
  unfoldable pub build_tunnel_args : Trace → SshConfig → Option String → ℕ → ℕ → List String
  unfolding identity_args known_hosts jump_args
  build_tunnel_args t ssh identity local_port remote_port =
      ("-N"
        ∷ "-o"
        ∷ "BatchMode=yes"
        ∷ "-o"
        ∷ "NumberOfPasswordPrompts=0"
        ∷ "-o"
        ∷ "ExitOnForwardFailure=yes"
        ∷ "-o"
        ∷ "ServerAliveInterval=10"
        ∷ "-L"
        ∷ (show_nat local_port <> ":127.0.0.1:" <> show_nat remote_port)
        ∷ [])
      ++ (identity_args t identity
          ++ (jump_args ssh
              ++ ("-o"
                  ∷ "StrictHostKeyChecking=accept-new"
                  ∷ "-o"
                  ∷ known_hosts
                  ∷ "-p"
                  ∷ show_nat (port_or_22 ssh.port)
                  ∷ target ssh
                  ∷ [])))

  unfoldable pub expand_install_root : String → String
  expand_install_root remote_home = elim (after_tilde config.install_root) [
    | none ↦ config.install_root
    | some rest ↦ remote_home <> "/" <> rest
  ]

unfoldable pub build_launch_command : String → ℕ → String
build_launch_command install_root remote_port = join " " (
    (install_root <> "/bin/opencode-remote-stub")
    ∷ ("--listen 127.0.0.1:" <> show_nat remote_port)
    ∷ ("--token-file " <> install_root <> "/run/stub.token")
    ∷ ("--state-dir " <> install_root <> "/state")
    ∷ ("--log-file " <> install_root <> "/log/stub.log")
    ∷ [])

unfoldable pub build_remote_start_command : String → ℕ → String
build_remote_start_command install_root remote_port = join "\n" (
    "python2 - <<'PY' 2>/dev/null || python - <<'PY'"
    ∷ "import os"
    ∷ "import subprocess"
    ∷ "import time"
    ∷ "import sys"
    ∷ "null_in = open('/dev/null', 'rb')"
    ∷ "null_out = open('/dev/null', 'ab')"
    ∷ ("cmd = ['"
        <> install_root
        <> "/bin/opencode-remote-stub', '--listen', '127.0.0.1:"
        <> show_nat remote_port
        <> "', '--token-file', '"
        <> install_root
        <> "/run/stub.token', '--state-dir', '"
        <> install_root
        <> "/state', '--log-file', '"
        <> install_root
        <> "/log/stub.log']")
    ∷ "proc = subprocess.Popen(cmd, stdin=null_in, stdout=null_out, stderr=null_out, close_fds=True, preexec_fn=os.setsid)"
    ∷ "time.sleep(2)"
    ∷ "sys.exit(0 if proc.poll() is None else 1)"
    ∷ "PY"
    ∷ [])

-- The two ways in which a path is prepared for single quotes. In `installStub` the template literal
-- `'\''` is three quotes, since `\'` is an escape; `remoteStubHash` writes `'\\''`.
unfoldable pub escape_install : String → String
escape_install path = replace_quotes "'''" path

unfoldable pub escape_hash : String → String
escape_hash path = replace_quotes "'\\''" path

-- The commands that `installStub` and `remoteStubHash` run.
unfoldable pub install_command : String → String → String
unfolding escape_install
install_command temp remote =
    "chmod +x '"
    <> escape_install temp
    <> "' && mv -f '"
    <> escape_install temp
    <> "' '"
    <> escape_install remote
    <> "' && chmod +x '"
    <> escape_install remote
    <> "'"

unfoldable pub hash_command : String → String
unfolding escape_hash
hash_command remote =
    "if [ -f '"
    <> escape_hash remote
    <> "' ]; then sha256sum '"
    <> escape_hash remote
    <> "' 2>/dev/null | awk '{print $1}'; fi"

-- `char.charCodeAt(0)`: the first UTF-16 unit of a code point.
abbrev pub char_code : Char → ℕ
char_code c = if ltb (code c) 0x10000 then code c else 0xd800 + (code c - 0x10000) / 0x400

-- `hash = (hash * 31 + char.charCodeAt(0)) >>> 0` over the seed.
unfoldable pub hash_from : ℕ → String → ℕ
hash_from hash String.[] = hash
hash_from hash (String.◌∷◌ c s) = hash_from ((hash * 31 + char_code c) % 2 ^ 32) s

-- The port range of the configuration, and its width; a range that is turned round has none.
abbrev pub range_start : ResolvedPluginConfig → ℕ
range_start config = config.tunnel.local_port_range.0

abbrev pub range_end : ResolvedPluginConfig → ℕ
range_end config = config.tunnel.local_port_range.1

abbrev pub span : ResolvedPluginConfig → ℕ
span config = range_end config + 1 - range_start config

-- The remainder is not used where the width is 0.
unfoldable pub allocate_initial_local_port : ResolvedPluginConfig → String → String → ℕ
unfolding hash_from
allocate_initial_local_port config workspace_id host =
    range_start config + hash_from 0 (workspace_id <> ":" <> host) % span config
