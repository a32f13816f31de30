-- ===== src/Driver.antt =====
-- crates/dst-server/src/driver.rs: the driver of a shard's game process.
pub mod State
pub mod Handlers
pub mod Replies
pub mod Requests
pub mod Steps
pub mod Readiness
pub mod Generations
pub mod Answers
pub mod Held
mod Examples
