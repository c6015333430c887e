-- ===== src/Ssh.antt =====
-- plugin/src/ssh.ts: `SSHManager`.
pub mod Args
pub mod Quoting
pub mod Probe
pub mod Tunnel
pub mod Recover
pub mod Bootstrap
