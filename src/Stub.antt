-- ===== src/Stub.antt =====
-- stub: the Go program on the remote host. Its state is the four maps of stub/internal/state; the
-- lock of the state makes each method one step. Files are written, and read again only when the
-- program starts, which is not modelled.
pub mod Patterns
pub mod Store
pub mod Handler
pub mod Approvals
pub mod Commands
pub mod Once
pub mod Calls
pub mod Bound
pub mod Auth
pub mod Opened
