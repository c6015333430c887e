-- ===== src/Ssh/Bootstrap/Token.antt =====
-- The private copy of the token while `bootstrap` (plugin/src/ssh.ts) sends it to the host.
use opencode_remote_ssh.Base.{
  String, ◌<>◌, ◌≡◌, refl, true, inl, inr, Option, ◌*◌, ◌++◌, [], ◌∷◌, In, ap, ◌∙◌,
}
use opencode_remote_ssh.Types.{SshConfig}
use opencode_remote_ssh.Config.{ResolvedPluginConfig}
use opencode_remote_ssh.Effects.{
  Env, Trace, Io, wrote_file, unlinked, removed_dir, finally, unlink, remove_dir, write_file,
  execute, pure,
}
use opencode_remote_ssh.Effects.Steps.{bind-ok, finally-trace}
use opencode_remote_ssh.Effects.Growth.{Keeps, bind-Keeps}
use opencode_remote_ssh.Effects.Returns.{
  Returns, bind-Returns, ends-Returns, write_file-trace, unlink-trace, remove_dir-trace,
  execute-Keeps,
}
use opencode_remote_ssh.Ssh.Args.{target, build_scp_args}
use opencode_remote_ssh.Ssh.Bootstrap.{scp, upload_token}

module _ (env : Env) (config : ResolvedPluginConfig) (token_dir token : String) (ssh : SshConfig)
    (identity : Option String) (token_file : String) where
  abbrev path : String
  path = token_dir <> "/stub.token"

  abbrev copy : Io (Unit {0})
  copy = scp env config path ssh identity (target ssh <> ":" <> token_file)

  abbrev clean : Io (Unit {0})
  clean = finally (unlink env path) (remove_dir env token_dir)

  clean-trace :
      (t : Trace) → (finally copy clean t).1 ≡ removed_dir token_dir ∷ unlinked path ∷ (copy t).1
  clean-trace t =
      let u = (copy t).1 in
      finally-trace copy clean t
      ∙ finally-trace (unlink env path) (remove_dir env token_dir) u
      ∙ remove_dir-trace env token_dir (unlink env path u).1
      ∙ ap (λ x. removed_dir token_dir ∷ x) (unlink-trace env path u)

  -- Once the token is written, the file and its directory are removed as soon as the copy has ended,
  -- whether the copy or the removal of the file throws or not.
  pub upload_token-removes :
      (t : Trace)
      → env.write_file t path token ≡ true
      → (upload_token env config token_dir token ssh identity token_file t).1
        ≡ removed_dir token_dir
          ∷ unlinked path
          ∷ (scp env config path ssh identity
              (target ssh <> ":" <> token_file)
              (wrote_file path token ∷ t)).1
  unfolding upload_token
  upload_token-removes t written =
      ap (λ x. x.1)
        (bind-ok (write_file env path token) (λ _. finally copy clean) t tt
          (rw (written, write_file) refl))
      ∙ ap (λ u. (finally copy clean u).1) (write_file-trace env path token t)
      ∙ clean-trace (wrote_file path token ∷ t)

  scp-Keeps : Keeps copy
  unfolding scp
  scp-Keeps e t i =
      let args =
        build_scp_args env config t ssh identity
        ++ (path ∷ (target ssh <> ":" <> token_file) ∷ []) in
      let timeout = config.tunnel.connect_timeout_ms * 4 in
      bind-Keeps (execute env "scp" args timeout) (λ _. pure tt)
        (execute-Keeps env "scp" args timeout) (λ _ _ _ k. k) e t i

  -- What it leaves in the trace when it returns.
  pub upload_token-Returns :
      (t : Trace)
      → Returns
          (λ _ u. In (wrote_file path token) u × In (removed_dir token_dir) u)
          (upload_token env config token_dir token ssh identity token_file t)
  unfolding upload_token
  upload_token-Returns t =
      bind-Returns _ (λ _ u. In (wrote_file path token) u) (write_file env path token)
        (λ _. finally copy clean) t
        (ends-Returns (In (wrote_file path token)) (write_file env path token) t
          (rw write_file-trace (inl refl)))
        (λ _ u i.
          ends-Returns (λ v. In (wrote_file path token) v × In (removed_dir token_dir) v)
            (finally copy clean) u (rw clean-trace (inr (inr (scp-Keeps _ u i)), inl refl)))
