-- ===== src/Files.antt =====
-- crates/dst-server/src/files.rs: the native files of a room.
pub mod Permissions
mod Examples
