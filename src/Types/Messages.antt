-- ===== src/Types/Messages.antt =====
-- The texts of the errors, which the tools report.
use opencode_remote_ssh.Base.{String, ◌<>◌, show_nat}
use opencode_remote_ssh.Types.{
  Error, leased_by, unknown_provider, host_not_found, no_available_host, already_leased,
  provider_not_configured, not_active, no_providers, no_workspace_api, stub_not_found,
  no_remote_home, no_local_port, tunnel_untracked, recovered_untracked, not_healthy, not_reachable,
  not_closed, session_create_failed, workspace_create_failed, health_check_failed, unknown_argument,
  no_plugin_entry, no_stub, request_failed, shell_failed, permission_missing, external, out_of_fuel,
}

-- `errorMessage`: every `throw` of the source raises an `Error`, so this is its `message`.
unfoldable pub error_message : Error → String
unfolding show_nat
error_message (leased_by host workspace_id) =
    "Host '" <> host <> "' is already leased by workspace '" <> workspace_id <> "'"
error_message (unknown_provider provider) = "Unknown provider '" <> provider <> "'"
error_message (host_not_found host provider) =
    "Host '" <> host <> "' not found in provider '" <> provider <> "'"
error_message (no_available_host provider) =
    "No available host found in provider '" <> provider <> "'"
error_message (already_leased host) = "Host '" <> host <> "' is already leased"
error_message provider_not_configured = "Workspace extra.provider must be configured"
error_message (not_active workspace_id) = "Workspace '" <> workspace_id <> "' is not active"
error_message no_providers = "No providers configured for opencode-remote-provider"
error_message no_workspace_api = "[opencode-remote] experimental_workspace not available"
error_message (stub_not_found path) =
    "Stub binary not found at '" <> path <> "'. Build it first or set plugin.stubBinaryPath."
error_message (no_remote_home user host) =
    "Unable to determine remote home for " <> user <> "@" <> host
error_message (no_local_port start end) =
    "Unable to establish SSH tunnel: no available local port in range "
    <> show_nat start
    <> "-"
    <> show_nat end
error_message (tunnel_untracked port) =
    "Tunnel on local port "
    <> show_nat port
    <> " is reachable but no tracked PID is available for teardown"
error_message (recovered_untracked port) =
    "Recovered tunnel on local port "
    <> show_nat port
    <> " is reachable but has no tracked PID for safe teardown"
error_message (not_healthy port) =
    "Remote stub did not become healthy on local port " <> show_nat port
error_message (not_reachable port) =
    "SSH tunnel did not become reachable on local port " <> show_nat port
error_message (not_closed port) =
    "SSH tunnel on local port " <> show_nat port <> " did not close after teardown"
error_message (session_create_failed status text) =
    "Remote session create failed: HTTP " <> show_nat status <> " " <> text
error_message (workspace_create_failed status text) =
    "Remote workspace create failed: HTTP " <> show_nat status <> " " <> text
error_message (health_check_failed status text) =
    "Health check failed through target: HTTP " <> show_nat status <> " " <> text
error_message (unknown_argument argument) = "Unknown argument '" <> argument <> "'"
error_message (no_plugin_entry path) = "No opencode-remote-provider plugin config found in " <> path
error_message (no_stub path) =
    "Stub binary not found at '" <> path <> "'. Build it before running the harness."
error_message (request_failed label status body) =
    label <> " failed: HTTP " <> show_nat status <> " " <> body
error_message (shell_failed status body) =
    "shell permission probe failed: HTTP " <> show_nat status <> " " <> body
error_message (permission_missing body) =
    "Shell required permission but no matching request was listed: " <> body
error_message (external message) = message
error_message out_of_fuel = "out of fuel"
