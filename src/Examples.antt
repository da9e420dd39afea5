-- ===== src/Examples.antt =====
-- Runs of the models of src on concrete inputs.
pub mod Compression
mod Json
mod Protocol
mod Rhp
mod Agent
mod Store
mod Heads
mod Session
mod Web
mod Client
mod Visit
mod Daemon
