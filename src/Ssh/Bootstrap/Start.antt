-- ===== src/Ssh/Bootstrap/Start.antt =====
-- The commands that `bootstrap` (plugin/src/ssh.ts) sends to the host, in the trace.
use opencode_remote_ssh.Base.{trim, ℕ, ◌*◌, String, ◌<>◌, refl, List, [], ◌∷◌, ◌++◌, In, inl}
use opencode_remote_ssh.Config.{ResolvedPluginConfig}
use opencode_remote_ssh.Effects.{Env, Effect, Trace, Io, executed, execute, pure, ◌>>◌}
use opencode_remote_ssh.Effects.Growth.{Keeps, bind-Keeps, try_catch-Keeps}
use opencode_remote_ssh.Effects.Returns.{
  Returns, bind-Returns, any-Returns, ends-Returns, execute-Keeps, execute-trace,
}
use opencode_remote_ssh.Ssh.Args.{build_remote_start_command}
use opencode_remote_ssh.Ssh.Bootstrap.{exec_ssh, exec_ssh_allow_failure, start_stub}

module _ (env : Env) (config : ResolvedPluginConfig) where
  abbrev pub asked : List String → String → Effect
  asked ssh_args command =
      executed "ssh" (ssh_args ++ (command ∷ [])) (config.tunnel.connect_timeout_ms * 2)

  module _ (ssh_args : List String) (command : String) where
    abbrev sending : Io String
    sending = execute env "ssh" (ssh_args ++ (command ∷ [])) (config.tunnel.connect_timeout_ms * 2)

    exec_ssh-Keeps : Keeps (exec_ssh env config ssh_args command)
    unfolding exec_ssh
    exec_ssh-Keeps =
        bind-Keeps sending (λ stdout. pure (trim stdout)) (execute-Keeps env _ _ _) (λ _ _ _ k. k)

    exec_ssh_allow_failure-Keeps : Keeps (exec_ssh_allow_failure env config ssh_args command)
    unfolding exec_ssh_allow_failure
    exec_ssh_allow_failure-Keeps =
        try_catch-Keeps (exec_ssh env config ssh_args command) (λ _. pure "") exec_ssh-Keeps
          (λ _ _ _ k. k)

    exec_ssh-Returns :
        (t : Trace)
        → Returns (λ _ u. In (asked ssh_args command) u) (exec_ssh env config ssh_args command t)
    unfolding exec_ssh
    exec_ssh-Returns t =
        let after = λ (_ : String) (u : Trace). In (asked ssh_args command) u in
        bind-Returns after after sending (λ stdout. pure (trim stdout)) t
          (ends-Returns (In (asked ssh_args command)) sending t (rw execute-trace (inl refl)))
          (λ _ u h. h)

  module _ (ssh_args : List String) (install_root : String) (remote_port : ℕ) where
    abbrev command : String
    command = build_remote_start_command install_root remote_port

    abbrev stop : Io String
    stop =
        exec_ssh_allow_failure env config ssh_args
          "pkill -f 'opencode-remote-stub' 2>/dev/null || true"

    abbrev make : Io String
    make = exec_ssh env config ssh_args ("mkdir -p " <> install_root <> "/log")

    abbrev last : Io (Unit {0})
    last = exec_ssh env config ssh_args command >> pure tt

    pub start_stub-Keeps : Keeps (start_stub env config ssh_args install_root remote_port)
    unfolding start_stub
    start_stub-Keeps =
        bind-Keeps stop (λ _. make >> last) (exec_ssh_allow_failure-Keeps _ _)
          (λ _.
            bind-Keeps make (λ _. last) (exec_ssh-Keeps _ _)
              (λ _.
                bind-Keeps (exec_ssh env config ssh_args command) (λ _. pure tt)
                  (exec_ssh-Keeps _ _) (λ _ _ _ k. k)))

    -- Only its last command matters here.
    pub start_stub-Returns :
        (t : Trace)
        → Returns
            (λ _ u. In (asked ssh_args command) u)
            (start_stub env config ssh_args install_root remote_port t)
    unfolding start_stub
    start_stub-Returns t =
        let after = λ (_ : Unit {0}) (u : Trace). In (asked ssh_args command) u in
        any-Returns after stop (λ _. make >> last) t
          (λ _ u.
            any-Returns after make (λ _. last) u
              (λ _ v.
                bind-Returns after (λ _ w. In (asked ssh_args command) w)
                  (exec_ssh env config ssh_args command) (λ _. pure tt) v
                  (exec_ssh-Returns ssh_args command v) (λ _ w h. h)))
