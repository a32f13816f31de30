-- ===== src/Deployment.antt =====
-- crates/dst-server/src/deployment.rs: the container units of rooms. A text is the list of its
-- characters' codes, or of its bytes where the source goes over bytes.
pub mod Quoting
pub mod UnitName
mod Examples
