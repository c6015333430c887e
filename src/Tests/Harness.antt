-- ===== src/Tests/Harness.antt =====
-- The life cycle harness: command lines, and runs of the checks and of the clean-up.
use opencode_remote_ssh.Base.{
  ◌==◌, show_nat, ◌≡◌, refl, ◌≢◌, ◌<>◌, true, if◌then◌else◌, none, some, [], ◌∷◌, arith, find,
  string_dec,
}
use opencode_remote_ssh.Types.{text, ok}
use opencode_remote_ssh.Leases.Holding.{holder}
use opencode_remote_ssh.Effects.{Env, Payload, Request, Response, Trace, Method, fetched}
use opencode_remote_ssh.Ssh.Recover.{teardown}
use opencode_remote_ssh.Harness.{checked}
use opencode_remote_ssh.Harness.CommandLine.{parse_args, parsed, usage, refused}
use opencode_remote_ssh.Harness.Checks.{
  list_request, Json, Permission, Target, Verified, request, shell_request, asks, checks,
}
use opencode_remote_ssh.Harness.Passing.{IsVerified, checks-IsVerified}
use opencode_remote_ssh.Harness.Guarded.{approved_at}
use opencode_remote_ssh.Harness.Served.{Wire, item_of, served, IsWired}
use opencode_remote_ssh.Harness.Together.{checks-served}
use opencode_remote_ssh.Stub.Store.{Workspace, empty_stub}
use opencode_remote_ssh.Stub.Handler.{Machine, Listed, permissions}
use opencode_remote_ssh.Stub.Calls.{
  check_health, post_workspace, create_session_with, list_requests, run_shell, reply_to,
}
use opencode_remote_ssh.Harness.CleanUp.{checked-cleans, checked-leaks}
use opencode_remote_ssh.Tests.Sample.{quiet, binding, calm, dead}
use opencode_remote_ssh.Tests.Recovery.{plugin}
use opencode_remote_ssh.Ssh.Probe
use opencode_remote_ssh.Ssh.Tunnel

parsed_line :
    parse_args "opencode.json" ("--host" ∷ "web" ∷ "--config" ∷ "mine.json" ∷ [])
    ≡ parsed (record { config = some "mine.json"; provider = none; host = some "web" })
unfolding parse_args string_dec
parsed_line = refl

no_host : parse_args "opencode.json" ("--provider" ∷ "default" ∷ []) ≡ usage
unfolding parse_args string_dec
no_host = refl

unknown_word : parse_args "opencode.json" ("--host" ∷ "web" ∷ "--force" ∷ []) ≡ refused "--force"
unfolding parse_args string_dec
unknown_word = refl

abbrev target : Target
target = record { binding = binding; session_id = "sess_9" }

abbrev waiting : Permission
waiting = record { id = "perm_1"; session_id = "sess_9"; permission = "path.access" }

abbrev json : Json
json = record { shown = λ s. s; listed = λ s. some (waiting ∷ []) }

-- A machine whose clock stands still.
abbrev still : Trace → Machine
still t = record {
  clock = λ k. 7;
  home = b'/' ∷ [];
  writes = λ path. true;
  run = λ command cwd variables. ("/", 0);
}

abbrev given : Workspace
given = record {
  id = "w1";
  type = "ssh-provider";
  name = "Harness Workspace";
  project_id = "";
  provider = "";
  host = "";
  status = "";
  created_at = 0;
  extra = ("provider", text "default") ∷ ("host", text "web") ∷ [];
}

-- The requests of the harness, told apart by their payloads.
abbrev wire : Wire
wire = record {
  route = λ r. elim r.payload [
    | none ↦ if r.url == (list_request target).url then some list_requests else some check_health
    | some p ↦ elim p [
      | Payload.session id title workspace_id ↦
          some (create_session_with (some (id, title, workspace_id)))
      | Payload.workspace id name provider host ↦ some (post_workspace (some given))
      | Payload.command c ↦ some (run_shell "sess_9" (some (c, [], [])))
      | Payload.reply r ↦ some (reply_to "perm_7" (some r))
    ]
  ];
  shown_error = λ code kind. kind;
  shown = λ b. elim b [ permissions ls ↦ elim ls [ [] ↦ "" | l ∷ _ ↦ l.request.id ] | _ ↦ "{}" ];
}

abbrev by_id : Json
by_id = record {
  shown = λ s. s;
  listed = λ id. some (record { id = id; session_id = "sess_9"; permission = "path.access" } ∷ []);
}

reads_item :
    (l : Listed)
    → asks target (item_of l) ≡ true
    → by_id.listed (wire.shown (permissions (l ∷ []))) ≡ some (item_of l ∷ [])
reads_item l e =
    let mine : "sess_9" ≡ l.request.session_id = ground arith in
    let path : "path.access" ≡ l.request.permission = ground arith in
    λ i. some (record { id = l.request.id; session_id = mine i; permission = path i } ∷ [])

wired : IsWired wire by_id target "perm_7"
unfolding string_dec show_nat
wired = record {
  workspace = given;
  workspace_id = refl;
  title = "Harness Session";
  health_route = refl;
  workspace_route = refl;
  session_route = refl;
  shell_route = refl;
  list_route = refl;
  reply_route = refl;
  reads = reads_item;
}

-- The stub refuses the first command, and runs the second.
abbrev online : Env
online = served wire still empty_stub calm

checks-IsVerified_example :
    (v : IsVerified online by_id target [] (checks online by_id target []).1) × ◌≡◌ {A = Verified}
      (record { health = "{}"; shell = "{}" })
      (record { health = v.health; shell = v.shell })
unfolding checks opencode_remote_ssh.Harness.Served.answered string_dec show_nat
    opencode_remote_ssh.Stub.Calls.handle opencode_remote_ssh.Stub.Handler.health
    opencode_remote_ssh.Stub.Handler.workspace_post opencode_remote_ssh.Stub.Handler.session_create
    opencode_remote_ssh.Base.lookup opencode_remote_ssh.Harness.Served.state_after
    opencode_remote_ssh.Base.insert opencode_remote_ssh.Stub.Handler.shell
    opencode_remote_ssh.Stub.Store.consume_approval opencode_remote_ssh.Stub.Handler.permission_list
    opencode_remote_ssh.Stub.Handler.permission_reply
    opencode_remote_ssh.Stub.Patterns.match_pattern
checks-IsVerified_example = checks-IsVerified online by_id target []

checks-served_example :
    (result : Verified) × (checks (served wire still empty_stub calm) by_id target [] ≡ (
      ok result,
      fetched (shell_request target)
          ∷ approved_at calm by_id target
              (record { id = "perm_7"; session_id = "sess_9"; permission = "path.access" })
              [],
    ))
unfolding show_nat opencode_remote_ssh.Harness.Served.state_after opencode_remote_ssh.Base.values
    string_dec
checks-served_example =
    checks-served wire by_id target still empty_stub calm [] wired empty_stub refl refl tt refl
      (λ u path. refl)

abbrev answer : Response
answer = record { status = 200; text = "ok"; json = some "{}" }

abbrev delete_session_request : Request
delete_session_request = request target Method.delete ("/session/" <> target.session_id) none

abbrev delete_workspace_request : Request
delete_workspace_request =
    request target Method.delete ("/experimental/workspace/" <> binding.workspace_id) none

-- What has been done when the tunnel is to be closed.
abbrev cleaned : Trace
cleaned =
    fetched delete_workspace_request
    ∷ fetched delete_session_request
    ∷ (checks quiet json target []).1

closed : (teardown quiet binding cleaned).0 ≡ ok tt
unfolding teardown Tunnel.close_tunnel Probe.wait_for_port_closed Probe.wait_within Probe.wait_until
    checks Probe.is_port_reachable
closed = refl

checked-cleans_example :
    let (result, q) = checked quiet json target plugin in
    (result ≡ (checks quiet json target []).0)
    × (q.trace ≡ (teardown quiet binding cleaned).1)
    × (holder q.leases "web" ≢ some "w1")
checked-cleans_example = checked-cleans quiet json target plugin answer answer refl refl closed

checked-leaks_example : checked dead json target plugin ≡ (
  (checks dead json target []).0,
  record plugin { trace = fetched delete_session_request ∷ (checks dead json target []).1 },
)
checked-leaks_example = checked-leaks dead json target plugin refl
