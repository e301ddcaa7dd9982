-- ===== src/H3.antt =====
-- The crate navar-h3 (navar-h3/src): its adapter of connections and streams, and its session.
pub mod Errors
pub mod Streams
pub mod Connect
pub mod Session
pub mod Handshake
