-- ===== src/Plugins.antt =====
-- How the transports and the application protocols of the plugins work together.
pub mod Http2
pub mod Stack
pub mod Reaching
pub mod OverIroh
pub mod Encryption
