-- ===== src/Stub/Commands.antt =====
-- What a command of a session is allowed to do (stub/internal/handler/handler.go).
use opencode_remote_ssh.Base.{
  ℕ, String, ◌≡◌, Option, some, In, Table, values, arith, true, Option-cases, inl, inr,
}
use opencode_remote_ssh.Stub.Patterns.{Bytes, match_pattern}
use opencode_remote_ssh.Stub.Patterns.Meaning.{Stands, match_pattern_iff}
use opencode_remote_ssh.Stub.Store.{
  Session, Approval, Stub, get_session, allows, consume_approvals, consume_approval,
}
use opencode_remote_ssh.Stub.Approvals.{consume_approvals-found}
use opencode_remote_ssh.Stub.Handler.{
  Machine, ran, success, directory_for, execute_in, execute_command_like, shell,
}

-- An approval of the table, for the workspace and a pattern that stands for the directory.
pub record Permitted (workspace_id : String) (cwd : Bytes) (st : Stub) : Type 0 where
  pub approval : Approval
  pub listed : In approval (values st.approvals)
  pub ours : approval.workspace_id ≡ workspace_id
  pub stands : Stands approval.pattern cwd

allows-Permitted :
    (workspace_id : String) (cwd : Bytes) (st : Stub) (a : Approval)
    → In a (values st.approvals)
    → allows workspace_id cwd a ≡ true
    → Permitted workspace_id cwd st
allows-Permitted workspace_id cwd st a listed e =
    let ours : a.workspace_id ≡ workspace_id = ground arith in
    let matches : match_pattern a.pattern cwd ≡ true = ground arith in
    record {
      approval = a;
      listed = listed;
      ours = ours;
      stands = (match_pattern_iff _ cwd).0 matches;
    }

execute_in-Permitted :
    (machine : Machine) (se : Session) (operation command : String) (cwd : Bytes)
    (variables : Table String)
    → (st : Stub) (output : String) (code : ℕ)
    → (execute_in machine se operation command cwd variables st).0 ≡ success (ran output code)
    → Permitted se.workspace_id cwd st × (machine.run command cwd variables ≡ (output, code))
unfolding execute_in consume_approval
execute_in-Permitted machine se operation command cwd variables st output code e =
    elim (Option-cases (consume_approvals se.workspace_id cwd st.approvals).0) [
      | inl refused ↦ absurd (ground arith)
      | inr (a, found) ↦
          let (listed, e_allows) =
            consume_approvals-found se.workspace_id cwd st.approvals a found in
          (allows-Permitted se.workspace_id cwd st a listed e_allows, ground arith)
    ]

-- A command that was run: its session, what was asked for, its directory, which an approval permits,
-- and the result, which is that of the command there.
pub record Executed (machine : Machine) (id : String)
    (body : Option (String × Bytes × Table String)) (st : Stub) (result : String × ℕ) : Type 0 where
  pub session : Session
  pub command : String
  pub cwd : Bytes
  pub variables : Table String
  pub known : get_session st id ≡ some session
  pub given : body ≡ some (command, cwd, variables)
  pub permitted : Permitted session.workspace_id (directory_for session cwd) st
  pub result_of : machine.run command (directory_for session cwd) variables ≡ result

-- A command whose output is answered was asked for in a session that exists, an approval of the
-- session's workspace stands for the directory that it ran in, and the answer is what it gave there.
pub shell-Executed :
    (machine : Machine) (operation id : String) (body : Option (String × Bytes × Table String))
    (st : Stub)
    → (output : String) (code : ℕ)
    → (shell machine operation id body st).0 ≡ success (ran output code)
    → Executed machine id body st (output, code)
unfolding shell execute_command_like
shell-Executed machine operation id body st output code e =
    elim (Option-cases (get_session st id)) [
      | inl unknown ↦ absurd (ground arith)
      | inr (se, known) ↦ elim (Option-cases body) [
        | inl bad ↦ absurd (ground arith)
        | inr ((command, cwd, variables), given) ↦
            let (permitted, result) =
              execute_in-Permitted machine se operation command (directory_for se cwd) variables st
                output code (ground arith) in
            record {
              session = se;
              command = command;
              cwd = cwd;
              variables = variables;
              known = known;
              given = given;
              permitted = permitted;
              result_of = result;
            }
      ]
    ]
