-- ===== src/Tests.antt =====
-- Runs at concrete data, and the theorems at inputs that meet their hypotheses.
mod Sample
mod Leases
mod Hosts
mod Storage
mod Network
mod Recovery
mod Tools
mod Reach
mod Shell
mod Configured
mod Bootstrap
mod Harness
mod Stub
mod Interleaved
