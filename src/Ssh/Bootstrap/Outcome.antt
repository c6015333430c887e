-- ===== src/Ssh/Bootstrap/Outcome.antt =====
-- What has been done when `bootstrap` (plugin/src/ssh.ts) returns.
use opencode_remote_ssh.Base.{
  ℕ, ◌*◌, ◌≤◌, String, ◌<>◌, ◌≡◌, refl, subst, true, Option, some, List, [], ◌∷◌, ◌++◌, In, inl,
  inr, arith,
}
use opencode_remote_ssh.Types.{SshConfig, ResolvedHost}
use opencode_remote_ssh.Config.{ResolvedPluginConfig}
use opencode_remote_ssh.Effects.{
  Env, Effect, Trace, Io, IsSteady, executed, fetched, wrote_file, removed_dir, is_success,
  make_temp_dir, random_hex, observe, pure, ◌>>=◌, ◌>>◌,
}
use opencode_remote_ssh.Effects.Returns.{
  Returns, bind-Returns, any-Returns, run-Returns, growing-Returns, weaken-Returns, Grows,
}
use opencode_remote_ssh.Ssh.Args.{
  range_start, range_end, identity_file, build_ssh_args, build_remote_start_command,
  expand_install_root, build_launch_command,
}
use opencode_remote_ssh.Ssh.Probe.{local_url, health_request, wait_for_health}
use opencode_remote_ssh.Ssh.Probe.Waiting.{passes, wait_for_health-settles}
use opencode_remote_ssh.Ssh.Tunnel.{Tunnel, ensure_tunnel}
use opencode_remote_ssh.Ssh.Tunnel.Ports.{ensure_tunnel-outcome}
use opencode_remote_ssh.Ssh.Tunnel.Kept.{ensure_tunnel-Keeps, wait_for_health-Keeps}
use opencode_remote_ssh.Ssh.Bootstrap.{
  BootstrapResult, bootstrap, exec_ssh, resolve_remote_home, update_stub, upload_token, start_stub,
  deploy, connect,
}
use opencode_remote_ssh.Ssh.Bootstrap.Start.{asked, start_stub-Keeps, start_stub-Returns}
use opencode_remote_ssh.Ssh.Bootstrap.Token.{upload_token-Returns}

-- The stub is up: it has been started with the token that was sent, the local copy of the token is
-- gone, and the stub has just answered a health check with the token, through a tunnel that has a
-- process and a port of the configured range.
pub record IsUp (env : Env) (config : ResolvedPluginConfig) (boot : BootstrapResult) (after : Trace)
    : Type 0 where
  pub port : boot.remote_port ≡ config.defaults.stub_port
  pub process : (p : ℕ) × (boot.tunnel_pid ≡ some p)
  pub low : range_start config ≤ boot.local_port
  pub high : boot.local_port ≤ range_end config
  pub sent :
      (dir : String) × In (wrote_file (dir <> "/stub.token") boot.token) after
      × In (removed_dir dir) after
  pub started :
      (args : List String) × In
        (executed "ssh"
          (args ++ (build_remote_start_command boot.install_root boot.remote_port ∷ []))
          (config.tunnel.connect_timeout_ms * 2))
        after
  pub heard :
      let request = health_request boot.local_port (some boot.token) in
      (u : Trace) × (passes is_success (env.fetch u request) ≡ true) × (after ≡ fetched request ∷ u)

module _ (env : Env) (config : ResolvedPluginConfig) where
  module _ (selected : ResolvedHost) (identity : Option String) (ssh_args : List String)
      (install_root token token_dir : String) where
    abbrev Sent : Trace → Type 0
    Sent u = In (wrote_file (token_dir <> "/stub.token") token) u × In (removed_dir token_dir) u

    abbrev Started : Trace → Type 0
    Started = In (
        asked env config ssh_args
          (build_remote_start_command install_root config.defaults.stub_port))

    deploy-Returns :
        (t : Trace)
        → Returns
            (λ _ u. Sent u × Started u)
            (deploy env config selected identity ssh_args install_root token token_dir t)
    unfolding deploy
    deploy-Returns t =
        let ssh = selected.host.ssh in
        let port = config.defaults.stub_port in
        let after = λ (_ : Unit {0}) (u : Trace). Sent u × Started u in
        let dirs = exec_ssh env config ssh_args (
          "mkdir -p " <> install_root <> "/bin " <> install_root <> "/run " <> install_root
          <> "/log " <> install_root <> "/state") in
        let update =
          update_stub env config ssh_args ssh identity
            (install_root <> "/bin/opencode-remote-stub") in
        let upload =
          upload_token env config token_dir token ssh identity
            (install_root <> "/run/stub.token") in
        let launch = start_stub env config ssh_args install_root port in
        any-Returns after dirs (λ _. update >> (upload >> launch)) t
          (λ _ u.
            any-Returns after update (λ _. upload >> launch) u
              (λ _ v.
                bind-Returns after (λ _. Sent) upload (λ _. launch) v
                  (upload_token-Returns env config token_dir token ssh identity
                    (install_root <> "/run/stub.token") v)
                  (λ _ w sent.
                    weaken-Returns (λ _ x. Started x × Grows w x) after (launch w)
                      (λ _ x h. ((h.1 _ sent.0, h.1 _ sent.1), h.0))
                      (growing-Returns (λ _. Started) launch w
                        (start_stub-Keeps env config ssh_args install_root port)
                        (start_stub-Returns env config ssh_args install_root port w)))))

    module _ (ordered : range_start config ≤ range_end config) (steady : IsSteady env)
        (workspace_id remote_home : String) where
      abbrev Ready : Tunnel → Trace → Type 0
      Ready tunnel u =
          ((p : ℕ) × (tunnel.tunnel_pid ≡ some p))
          × (range_start config ≤ tunnel.local_port)
          × (tunnel.local_port ≤ range_end config)
          × Sent u
          × Started u

      tunneled :
          (t : Trace)
          → Sent t
          → Started t
          → Returns Ready (
              ensure_tunnel env config selected.host.ssh identity config.defaults.stub_port
                workspace_id selected.host.name t)
      tunneled t sent started =
          let ssh = selected.host.ssh in
          let host = selected.host.name in
          let remote_port = config.defaults.stub_port in
          let tunneling = ensure_tunnel env config ssh identity remote_port workspace_id host in
          let grows = λ (e : Effect).
            ensure_tunnel-Keeps env config ssh identity remote_port workspace_id host e t in
          run-Returns Ready tunneling t (λ tunnel e.
            elim (ensure_tunnel-outcome env config ssh identity remote_port ordered workspace_id
              host t) [
                | inr (failed, _) ↦ absurd (cc)
                | inl (made, p, r, tracked, low, high) ↦
                    let same : made ≡ tunnel = ground arith in
                    subst (λ x. Ready x (tunneling t).1) same
                      ((p, tracked), low, high, (grows _ sent.0, grows _ sent.1), grows _ started)
              ])

      abbrev Answered : ℕ → Trace → Type 0
      Answered port v =
          let request = health_request port (some token) in
          ((u : Trace) × (passes is_success (env.fetch u request) ≡ true)
            × (v ≡ fetched request ∷ u))
          × Sent v
          × Started v

      waited :
          (port : ℕ) (t : Trace)
          → Sent t
          → Started t
          → Returns (λ _. Answered port) (wait_for_health env config port token t)
      waited port t sent started =
          let grows = λ (e : Effect). wait_for_health-Keeps env config port token e t in
          run-Returns (λ _. Answered port) (wait_for_health env config port token) t
            (λ _ e. elim (wait_for_health-settles env steady config port token t) [
              | inr (failed, _) ↦ absurd (cc)
              | inl (v, passed, _, after) ↦
                  ((v, passed, after), (grows _ sent.0, grows _ sent.1), grows _ started)
            ])

      connect-Returns :
          (t : Trace)
          → Sent t
          → Started t
          → Returns
              (IsUp env config)
              (connect env config workspace_id selected identity remote_home install_root token t)
      unfolding connect
      connect-Returns t sent started =
          let ssh = selected.host.ssh in
          let remote_port = config.defaults.stub_port in
          let tunneling =
            ensure_tunnel env config ssh identity remote_port workspace_id selected.host.name in
          let result : Tunnel → BootstrapResult = λ tunnel. record {
            remote_port = remote_port;
            local_port = tunnel.local_port;
            token = token;
            install_root = install_root;
            remote_home = remote_home;
            launch_command = build_launch_command install_root remote_port;
            health_url = local_url tunnel.local_port "/global/health";
            tunnel_pid = tunnel.tunnel_pid;
          } in
          bind-Returns (IsUp env config) Ready tunneling
            (λ tunnel. wait_for_health env config tunnel.local_port token >> pure (result tunnel)) t
            (tunneled t sent started)
            (λ tunnel u (process, low, high, sent, started).
              bind-Returns (IsUp env config) (λ _. Answered tunnel.local_port)
                (wait_for_health env config tunnel.local_port token) (λ _. pure (result tunnel)) u
                (waited tunnel.local_port u sent started)
                (λ _ v (heard, sent, started). record {
                  port = refl;
                  process = process;
                  low = low;
                  high = high;
                  sent = (token_dir, sent.0, sent.1);
                  started = (ssh_args, started);
                  heard = heard;
                }))

  module _ (ordered : range_start config ≤ range_end config) (steady : IsSteady env)
      (workspace_id : String) (selected : ResolvedHost) where
    abbrev ssh : SshConfig
    ssh = selected.host.ssh

    abbrev identity : Option String
    identity = identity_file env config ssh

    abbrev under : String → String → List String → String → Io BootstrapResult
    under home token args dir =
        let root = expand_install_root env config home in
        deploy env config selected identity args root token dir
        >> connect env config workspace_id selected identity home root token

    under-Returns :
        (home token : String) (args : List String) (dir : String) (t : Trace)
        → Returns (IsUp env config) (under home token args dir t)
    under-Returns home token args dir t =
        let root = expand_install_root env config home in
        bind-Returns (IsUp env config)
          (λ _ u.
            Sent selected identity args root token dir u
            × Started selected identity args root token dir u)
          (deploy env config selected identity args root token dir)
          (λ _. connect env config workspace_id selected identity home root token) t
          (deploy-Returns selected identity args root token dir t)
          (λ _ u (sent, started).
            connect-Returns selected identity args root token dir ordered steady workspace_id home u
              sent started)

    abbrev with_args : String → String → List String → Io BootstrapResult
    with_args home token args = make_temp_dir env >>= under home token args

    abbrev with_token : String → String → Io BootstrapResult
    with_token home token =
        observe (λ t. build_ssh_args env config t ssh identity) >>= with_args home token

    abbrev with_home : String → Io BootstrapResult
    with_home home = random_hex env >>= with_token home

    -- Where the configured range of ports is not empty, and on a steady clock: when `bootstrap`
    -- returns, the stub is up, with the port, the token and the tunnel of the result.
    pub bootstrap-IsUp :
        (t : Trace) → Returns (IsUp env config) (bootstrap env config workspace_id selected t)
    unfolding bootstrap
    bootstrap-IsUp t =
        any-Returns (IsUp env config) (resolve_remote_home env config ssh identity) with_home t
          (λ home u. any-Returns (IsUp env config) (random_hex env) (with_token home) u (λ token v.
            any-Returns (IsUp env config) (make_temp_dir env)
              (under home token (build_ssh_args env config v ssh identity)) v
              (under-Returns home token (build_ssh_args env config v ssh identity))))
