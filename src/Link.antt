-- ===== src/Link.antt =====
-- crates/reiny-link/src/link.rs: the state machine of a point-to-point link.
pub mod State
pub mod Lookup
pub mod Emit
pub mod Pending
pub mod New
pub mod Declare
pub mod Buffers
pub mod Handshake
pub mod Dispatch
pub mod Receive
pub mod Send
pub mod Read
