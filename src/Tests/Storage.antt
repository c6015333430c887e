-- ===== src/Tests/Storage.antt =====
-- The bindings and their file (plugin/src/state.ts).
use text.Mathlib.TextEquality.{eq_iff}
use opencode_remote_ssh.Base.{
  List, some, ◌≡◌, refl, none, [], ◌∷◌, lookup, string_dec, insert, arith,
}
use opencode_remote_ssh.State
use opencode_remote_ssh.State.{
  Bindings, JsonItem, scalar, object, StateFile, array, stored, load, save, checked,
}
use opencode_remote_ssh.State.Persistence.{IsComplete, IsValid, load-save}
use opencode_remote_ssh.State.Loaded.{Latest, load-Answers, load-changed}
use opencode_remote_ssh.Types.{WorkspaceBinding}
use opencode_remote_ssh.Tests.Sample.{binding}

abbrev bindings : Bindings
bindings = ("w1", binding) ∷ []

binding-IsComplete : IsComplete binding
binding-IsComplete = record {
  with_id = ground (arith, eq_iff "w1" "");
  with_provider = ground (arith, eq_iff "default" "");
  with_host = ground (arith, eq_iff "web" "");
  with_token = ground (arith, eq_iff "secret" "");
}

pub bindings_sample-IsValid : IsValid bindings
unfolding lookup
bindings_sample-IsValid = record {
  single = (refl, tt);
  keyed = (refl, tt);
  complete = (binding-IsComplete, tt);
}

load-save_example : load (save bindings) ≡ bindings
load-save_example = load-save bindings bindings_sample-IsValid

-- Two bindings of one workspace, an item without a token and one that is no object.
abbrev items : List JsonItem
items =
    object (stored (record binding { local_port = 39600 }))
    ∷ object (stored binding)
    ∷ object (record (stored binding) { token = none })
    ∷ scalar
    ∷ []

loaded : lookup "w1" (load (array items)) ≡ some binding
unfolding lookup load string_dec insert
loaded = refl

load-Answers_example : Latest "w1" items binding
unfolding lookup load string_dec insert
load-Answers_example = load-Answers "w1" items

abbrev second : WorkspaceBinding
second = record binding { workspace_id = "w2"; host = "mail" }

second-IsComplete : IsComplete second
second-IsComplete = record {
  with_id = ground (arith, eq_iff "w2" "");
  with_provider = ground (arith, eq_iff "default" "");
  with_host = ground (arith, eq_iff "mail" "");
  with_token = ground (arith, eq_iff "secret" "");
}

load-changed_example :
    (lookup "w2" (load (save (State.set bindings second))) ≡ some second)
    × (lookup "w2" (load (save (State.replace bindings second))) ≡ some second)
    × (lookup "w2" (load (save (State.delete bindings "w1"))) ≡ none)
unfolding string_dec lookup
load-changed_example =
    load-changed bindings second "w1" "w2" bindings_sample-IsValid second-IsComplete

load_skips :
    load (
      array
        (scalar ∷ object (record (stored binding) { token = none }) ∷ object (stored binding) ∷ []))
    ≡ bindings
unfolding load checked insert string_dec
load_skips = refl
