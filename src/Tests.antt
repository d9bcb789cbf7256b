-- ===== src/Tests.antt =====
-- Runs of the model, and its theorems applied to concrete states.
pub mod Data
pub mod Managers
pub mod Registries
pub mod Events
pub mod Dispatch
pub mod Streams
pub mod Presence
pub mod Heartbeats
pub mod Client
pub mod Server
