-- ===== src/Model.antt =====
-- crates/dst-server/src/model.rs: what callers, the agent and RPC share.
pub mod Json
pub mod Requests
pub mod Methods
pub mod Validation
pub mod Countdowns
pub mod Envelopes
