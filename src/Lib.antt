-- ===== src/Lib.antt =====
-- opencode-remote-ssh: the OpenCode plugin that runs workspaces on remote hosts over SSH.
--
-- The plugin (plugin/src) keeps a configuration, a map of host leases and a map of workspace
-- bindings. A tool or the workspace adapter asks the provider registry for a host, which takes a
-- lease; the SSH manager installs and starts a stub on that host and opens a tunnel to it; the
-- binding is stored in a file, from which the leases are made again when the plugin starts. The stub
-- is a program of its own, which answers the requests that come through the tunnel; a harness goes
-- through the life cycle of a workspace with the classes of the plugin.
--
-- Files, with the code that each models:
-- Types: plugin/src/types.ts. Optional members are options, numbers are natural numbers. `Error`
--   has a constructor for each `throw`, and Types/Messages the texts (`errorMessage`).
-- Config: plugin/src/config.ts, `resolveConfig`. The input is as the user wrote it, with every
--   member possibly missing. `path.resolve` and the default path of the stub are parameters.
--   Kept says which hosts of a provider stay, apart from the code.
-- Leases: plugin/src/leases.ts, `LeaseManager`: `acquire`, `restore`, `list`, `clear`,
--   `hasWorkspace`, `release`, `get`. A method takes the map and the time and returns the new map.
--   Leases/Locks is the abstract view of the exclusive mode: for each host, who has locked it.
-- Provider: plugin/src/provider.ts, `ProviderRegistry`: `resolveWithLease` and the methods on it.
--   Candidates, Availability, Exclusive, Held and Failure are about its answers.
-- State: plugin/src/state.ts, `RuntimeState`: the map of bindings, and reading and writing it as
--   parsed JSON. Loaded says what an id has after loading, and after a change and a restart.
-- Effects: the surroundings of the plugin. A computation `Io` maps the trace of all earlier calls
--   to a result or an error and a longer trace; the answers come from the parameter `Env`.
-- Ssh: plugin/src/ssh.ts, `SSHManager`. Args has the command lines, the quoting and the hash that
--   picks the first local port, Probe the health checks and waiting loops, Tunnel `ensureTunnel` and
--   `closeTunnel`, Recover `reconnect` and its callers, Bootstrap `bootstrap`.
--   Recover/Answering is about a binding that has been brought back.
--   Quoting sets the quoting of paths against how a POSIX shell reads a word; the shell is a
--   parameter there, `ShellWords`, with its documented rules for quotes and backslashes.
-- Plugin: plugin/src/index.ts. Its state is the two maps and the trace. Remote has the requests to
--   the stub, Connect the helpers that make, reuse, recover and remove bindings, Adapter
--   `sshProviderAdaptor`, Tools the seven tools, and `start` the plugin's entry. Consistent is the
--   invariant (`Sound`): each workspace has one binding at most, stored under its id, which is not
--   empty, not removed, and its workspace holds the lease of its host; `Kept` adds that no other
--   workspace's binding has changed. Dropped is about bindings that cannot have the requested host,
--   Configured about `configureWorkspace`, Unsaved about a state file that cannot be written,
--   Disconnected about what `remote-disconnect` takes down.
--   Consistent/Restart is the start from the state file, and Reach has every sequence of calls of
--   the adapter and the tools, each run to its end.
--   Interleaved is about a removal while a recovery is awaited.
-- Harness: scripts/verify-remote-lifecycle.mjs. CommandLine has `parseArgs` and
--   `pluginConfigFromOpenCodeConfig`, Checks the requests of `main` to the stub, Harness itself `main`
--   with its `finally`. Passing, Guarded and Answered are about its checks, CleanUp about its
--   clean-up. Served lets the stub answer: its state follows from the requests in the trace, and how
--   they are read and answers are written is a parameter, `Wire`. Together runs the checks against
--   it. Reading a file, the paths of node and JSON are parameters.
-- Stub: the Go program in stub. Patterns and Store are stub/internal/state/state.go (`matchPattern`,
--   and the four maps with their methods), Handler stub/internal/handler/handler.go, Calls the
--   routes of stub/cmd/main.go that reach a modelled handler, Auth stub/internal/auth/auth.go. A path
--   and a header are lists of bytes. A method holds the lock of the state and so is one step; a Go map
--   is a table in some order. The clock, the writing of files and `runCommand` are the parameter
--   `Machine`. Approvals, Commands, Once and Bound are about what a command is allowed to do,
--   Patterns/Meaning about what a pattern stands for, Auth/Bearer about the token.
-- Base: tables with string keys, list and text functions, and Boolean tests; Tests: concrete runs.
--
-- Bounds and fuel: a waiting loop runs on fuel, its timeout in milliseconds plus one. Each round
-- that goes on sleeps, so on a steady clock, which never goes back and is later after a
-- sleep (`IsSteady`), the deadline comes first. `ensureTunnel` counts down the size of the port range. The
-- hash of `allocateInitialLocalPort` is kept below 2 ^ 32 after every character, as by `>>> 0`.
-- Decimal printing runs on the number itself plus one.
--
-- Assumptions that a theorem names where it needs them: the configured lease mode is exclusive; the
-- clock is steady; the state file can be written (`StateIsWritable`), which Reach needs since
-- `setBinding` changes the map before it saves; a new workspace has an id that is not in use
-- (`IsFresh`), which the plugin does not check: it makes ids from the time and a name.
--
-- Not modelled: calls that interleave at an `await`, but for the one of Interleaved; JSON text, the
-- path of the state file and its permissions; what `ssh`, `scp`, the shell and the stub do when the
-- plugin runs, which `Env` answers for. Of the stub: reading its files when it starts, its events, the
-- listings of adaptors, workspaces and states, and the parsing of URLs. The shell scripts and the
-- packaging are glue.
--
-- Coarser than the code: every call of the surroundings ends, also a request that the source sends
-- without a time limit (`waitForHealth`). Writing a file with its directory and its mode is one step,
-- which works or throws. An object used as a map has its own names alone, not those that every object
-- inherits. An item of the state file has the types that the code casts it to, with the tested members
-- possibly missing: an item whose other members are missing or of another type cannot be written here,
-- though `load` accepts it.
pub mod Base
pub mod Types
pub mod Leases
pub mod Config
pub mod Provider
pub mod State
pub mod Effects
pub mod Ssh
pub mod Plugin
pub mod Harness
pub mod Stub
pub mod Tests
