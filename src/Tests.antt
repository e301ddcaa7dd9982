-- ===== src/Tests.antt =====
-- Runs of the model on small inputs, and the theorems at inputs where their hypotheses hold.
mod Data
mod Streams
mod Requests
mod Sessions
mod Tasks
mod Http3
mod Transports
mod Failing
mod Plugged
mod Shared
mod Schemes
mod Encrypted
mod Served
mod OverH3
mod Duplex
mod Command
