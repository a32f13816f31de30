-- ===== src/Policy.antt =====
-- crates/dst-server/src/policy.rs: the deterministic decisions of a room's policy.
pub mod Time
pub mod Windows
pub mod Schedule
pub mod Mods
pub mod Inputs
pub mod State
pub mod Attempts
pub mod Activity
pub mod Plan
mod Examples
