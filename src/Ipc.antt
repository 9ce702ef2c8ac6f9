-- ===== src/Ipc.antt =====
-- crates/ipc/src/lib.rs: local stream sockets.
pub mod Ring
pub mod Sockets
pub mod Connections
pub mod Streams
pub mod Peers
pub mod Steps
pub mod Invariant
pub mod Handles
pub mod Delivery
pub mod Closing
