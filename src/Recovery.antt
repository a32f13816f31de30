-- ===== src/Recovery.antt =====
-- crates/dst-server/src/recovery.rs: what the Agent may do after a game failure.
pub mod State
pub mod Snapshots
pub mod Decide
pub mod Operations
pub mod Valid
pub mod Preserved
pub mod Trace
pub mod Starts
pub mod Budget
pub mod Extremes
pub mod Rollback
pub mod Answers
pub mod Total
pub mod Resumed
mod Examples
