-- ===== src/Tests/Bootstrap.antt =====
-- A bootstrap that succeeds, and one whose copy of the token fails (plugin/src/ssh.ts).
use opencode_remote_ssh.Base.{◌≡◌, refl, none, [], ◌∷◌, arith, ◌<>◌}
use opencode_remote_ssh.Effects.{Env, IsSteady, wrote_file, unlinked, removed_dir}
use opencode_remote_ssh.Effects.Returns.{Returns}
use opencode_remote_ssh.Ssh.Args.{target}
use opencode_remote_ssh.Ssh.Bootstrap.{bootstrap, upload_token, scp}
use opencode_remote_ssh.Ssh.Bootstrap.Token.{upload_token-removes}
use opencode_remote_ssh.Ssh.Bootstrap.Outcome.{IsUp, bootstrap-IsUp}
use opencode_remote_ssh.Tests.Sample.{config, calm, web}
use opencode_remote_ssh.Tests.Reach.{opening}
use opencode_remote_ssh.Tests.Configured.{mail_selection}

opening-IsSteady : IsSteady opening
opening-IsSteady = record { forward = λ t e. omega arith; sleeps = λ t ms h. omega arith }

bootstrap-IsUp_example :
    Returns (IsUp opening config) (bootstrap opening config "w2" mail_selection [])
bootstrap-IsUp_example =
    bootstrap-IsUp opening config (omega arith) opening-IsSteady "w2" mail_selection []

-- Nothing can be copied to a host.
abbrev cut_off : Env
cut_off = record calm { execute = λ t program args timeout. none }

upload_token-removes_example :
    (upload_token cut_off config "/tmp/t" "secret" web.ssh none "/root/run/stub.token" []).1
    ≡ removed_dir "/tmp/t"
      ∷ unlinked "/tmp/t/stub.token"
      ∷ (scp cut_off config "/tmp/t/stub.token" web.ssh none
          (target web.ssh <> ":/root/run/stub.token")
          (wrote_file "/tmp/t/stub.token" "secret" ∷ [])).1
upload_token-removes_example =
    upload_token-removes cut_off config "/tmp/t" "secret" web.ssh none "/root/run/stub.token" []
      refl
