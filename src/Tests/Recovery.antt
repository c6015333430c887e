-- ===== src/Tests/Recovery.antt =====
-- Bindings that are reused, recovered and removed (plugin/src/index.ts and ssh.ts).
use text.Mathlib.TextEquality.{eq_iff}
use opencode_remote_ssh.Base.{
  String, ◌≡◌, refl, ◌≢◌, none, some, [], ◌∷◌, lookup, arith, string_dec, if◌then◌else◌, ltb,
  length, lookup-nil, insert,
}
use opencode_remote_ssh.Types.{
  ResolvedHost, first_available, failed, WorkspaceBinding, already_leased,
}
use opencode_remote_ssh.Leases
use opencode_remote_ssh.Provider.{HostSelectionRequest, acquire_resolved}
use opencode_remote_ssh.Provider.Failure.{acquire_resolved-err}
use opencode_remote_ssh.State.{Bindings}
use opencode_remote_ssh.Effects.{Env}
use opencode_remote_ssh.Plugin.{Plugin}
use opencode_remote_ssh.Plugin.Consistent.{Sound, Sound-insert}
use opencode_remote_ssh.Tests.Sample.{web, config, leases, binding, calm}

abbrev at_web : HostSelectionRequest
at_web = record { provider = "default"; host = some "web"; labels = none }

acquire_resolved-err_example : (acquire_resolved config leases at_web "w2" 9).1 ≡ leases
unfolding acquire_resolved string_dec lookup Leases.acquire Leases.get
acquire_resolved-err_example =
    acquire_resolved-err config leases at_web "w2" 9 (already_leased "web") refl

abbrev selection : ResolvedHost
selection = record { provider = "default"; host = web; labels = []; strategy = first_available }

-- The stub answers from the fourth step on: after a new tunnel has been started.
abbrev pub waking : Env
waking = record calm { fetch = λ t r. if ltb (length t) 4 then none else calm.fetch t r }

abbrev lost : WorkspaceBinding
lost = record binding { status = failed }

abbrev back : WorkspaceBinding
back = record binding { tunnel_pid = some 4242 }

abbrev untracked : WorkspaceBinding
untracked = record binding { tunnel_pid = none }

abbrev bindings : Bindings
bindings = ("w1", binding) ∷ []

empty-Sound : Sound leases []
empty-Sound = record {
  single = tt;
  backed = λ w b e. absurd (ground (arith, lookup-nil {V = WorkspaceBinding} w));
}

pub w1_named : ◌≢◌ {A = String} "w1" ""
w1_named = ground (arith, eq_iff "w1" "")

pub bindings-Sound : Sound leases bindings
unfolding insert string_dec lookup
bindings-Sound =
    Sound-insert leases [] empty-Sound "w1" binding
      (record { own = refl; named = w1_named; live = refl; held = refl })

abbrev pub plugin : Plugin
plugin = record { leases = leases; bindings = bindings; trace = [] }
