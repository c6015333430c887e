-- ===== src/State.antt =====
-- plugin/src/state.ts: `RuntimeState`, a map from workspace ids to bindings that is written to a file
-- after each change. The file is modelled as what `JSON.parse` makes of it.
pub mod Persistence
pub mod Loaded
use opencode_remote_ssh.Base.{
  ℕ, String, Option, none, some, List, [], ◌∷◌, Table, lookup, insert, erase, values, truthy, map,
}
use opencode_remote_ssh.Types.{LeaseMode, Status, WorkspaceBinding}

abbrev pub Bindings : Type 0
Bindings = Table WorkspaceBinding

-- An object of the file: the four members that `load` tests may be missing; the others are taken to
-- have the types that the cast to `WorkspaceBinding` claims.
pub record StoredItem : Type 0 where
  pub workspace_id : Option String
  pub provider : Option String
  pub host : Option String
  pub remote_port : ℕ
  pub local_port : ℕ
  pub token : Option String
  pub lease_mode : LeaseMode
  pub status : Status
  pub tunnel_pid : Option ℕ
  pub session_id : Option String

-- An element of the array: an object, or `null`, a number, a text and the like.
pub data JsonItem : Type 0 where
  scalar : JsonItem
  object : StoredItem → JsonItem

-- No file; a file that cannot be read or parsed; JSON that is no array; an array.
pub data StateFile : Type 0 where
  missing malformed not_array : StateFile
  array : List JsonItem → StateFile

unfoldable pub set : Bindings → WorkspaceBinding → Bindings
set bindings binding = insert binding.workspace_id binding bindings

unfoldable pub get : Bindings → String → Option WorkspaceBinding
get bindings workspace_id = lookup workspace_id bindings

unfoldable pub delete : Bindings → String → Bindings
delete bindings workspace_id = erase workspace_id bindings

unfoldable pub list : Bindings → List WorkspaceBinding
list bindings = values bindings

unfoldable pub replace : Bindings → WorkspaceBinding → Bindings
replace bindings binding = insert binding.workspace_id binding bindings

infixl 5 ◌>>=◌
abbrev ◌>>=◌ : {A B : Type 0} → Option A → (A → Option B) → Option B
none >>= f = none
some a >>= f = f a

-- `if (!binding.workspaceID || !binding.provider || !binding.host || !binding.token) continue`
unfoldable pub checked : StoredItem → Option WorkspaceBinding
checked item = do
  workspace_id ← truthy item.workspace_id
  provider ← truthy item.provider
  host ← truthy item.host
  token ← truthy item.token
  some (record {
    workspace_id = workspace_id;
    provider = provider;
    host = host;
    remote_port = item.remote_port;
    local_port = item.local_port;
    token = token;
    lease_mode = item.lease_mode;
    status = item.status;
    tunnel_pid = item.tunnel_pid;
    session_id = item.session_id;
  })

unfoldable pub load_item : JsonItem → Bindings → Bindings
unfolding checked
load_item scalar bindings = bindings
load_item (object item) bindings = elim (checked item) [
  | none ↦ bindings
  | some binding ↦ insert binding.workspace_id binding bindings
]

-- The loop over the array.
unfoldable pub load_items : List JsonItem → Bindings → Bindings
unfolding load_item
load_items [] bindings = bindings
load_items (item ∷ items) bindings = load_items items (load_item item bindings)

unfoldable pub load : StateFile → Bindings
unfolding load_items
load missing = []
load malformed = []
load not_array = []
load (array items) = load_items items []

abbrev pub stored : WorkspaceBinding → StoredItem
stored b = record {
  workspace_id = some b.workspace_id;
  provider = some b.provider;
  host = some b.host;
  remote_port = b.remote_port;
  local_port = b.local_port;
  token = some b.token;
  lease_mode = b.lease_mode;
  status = b.status;
  tunnel_pid = b.tunnel_pid;
  session_id = b.session_id;
}

-- What `save` writes.
unfoldable pub save : Bindings → StateFile
save bindings = array (map (λ b. object (stored b)) (values bindings))
