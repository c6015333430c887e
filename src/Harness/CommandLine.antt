-- ===== src/Harness/CommandLine.antt =====
-- scripts/verify-remote-lifecycle.mjs: the command line, and the plugin's entry in the configuration
-- of OpenCode.
use opencode_remote_ssh.Base.{
  String, Bool, ◌||◌, Option, none, some, List, [], ◌∷◌, truthy, if◌then◌else◌, ◌==◌,
}
use opencode_remote_ssh.Types.{Result, ok, err, no_plugin_entry, external}
use opencode_remote_ssh.Config.{PluginConfig}

-- `out`: a member is `none` where it is `undefined`.
pub record Args : Type 0 where
  pub config : Option String
  pub provider : Option String
  pub host : Option String

pub data Flag : Type 0 where
  config_flag provider_flag host_flag : Flag

-- `-h` and `--help`, or a missing host, end the program with its usage.
pub data Word : Type 0 where
  flag : Flag → Word
  help other : Word

unfoldable pub word : String → Word
word arg =
    if arg == "--config"
    then flag config_flag
    else if arg == "--provider"
    then flag provider_flag
    else if arg == "--host"
    then flag host_flag
    else if (arg == "-h") || (arg == "--help")
    then help
    else other

-- `out.config = argv[++i]` and the like.
unfoldable pub store : Flag → Option String → Args → Args
store config_flag value out = record out { config = value }
store provider_flag value out = record out { provider = value }
store host_flag value out = record out { host = value }

pub data Parsed : Type 0 where
  parsed : Args → Parsed
  usage : Parsed
  refused : String → Parsed

-- `if (!out.host) usage()`
unfoldable pub finish : Args → Parsed
finish out = elim (truthy out.host) [ none ↦ usage | some host ↦ parsed out ]

-- The loop over `argv`; a flag at the very end takes `undefined`.
unfoldable pub read_args : List String → Args → Parsed
unfolding word store finish
read_args [] out = finish out
read_args (arg ∷ []) out = elim (word arg) [
  | flag f ↦ finish (store f none out)
  | help ↦ usage
  | other ↦ refused arg
]
read_args (arg ∷ value ∷ rest) out = elim (word arg) [
  | flag f ↦ read_args rest (store f (some value) out)
  | help ↦ usage
  | other ↦ refused arg
]

unfoldable pub parse_args : String → List String → Parsed
unfolding read_args
parse_args default_config argv =
    read_args argv (record { config = some default_config; provider = none; host = none })

-- An item of `parsed.plugin`: a target with its options, or something else, which is passed over.
pub data Entry : Type 0 where
  configured : String → PluginConfig → Entry
  bare : Entry

-- `startsWith("/") ? resolve(target) : target`, `basename` and `includes` are of node; the second
-- text is the path of the plugin in the repository.
pub record Paths : Type 0 where
  pub resolved : String → String
  pub basename : String → String
  pub includes : String → String → Bool
  pub plugin : String

module _ (paths : Paths) where
  unfoldable pub is_plugin : String → Bool
  is_plugin target =
      (target == "opencode-remote-provider")
      || (paths.resolved target == paths.plugin)
      || (paths.basename target == "opencode-remote-provider")
      || paths.includes target "remote-provider"

  -- The first entry that is the plugin's.
  unfoldable pub find_entry : List Entry → Option PluginConfig
  unfolding is_plugin
  find_entry [] = none
  find_entry (bare ∷ entries) = find_entry entries
  find_entry (configured target options ∷ entries) =
      let rest = find_entry entries in if is_plugin target then some options else rest

  -- `entries` is what the file at the path reads as; reading it may throw.
  unfoldable pub plugin_config_from : String → Option (List Entry) → Result PluginConfig
  unfolding find_entry
  plugin_config_from path none = err (external "call failed")
  plugin_config_from path (some entries) = elim (find_entry entries) [
    | none ↦ err (no_plugin_entry path)
    | some options ↦ ok options
  ]
