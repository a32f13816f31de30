-- ===== src/Rooms.antt =====
-- crates/dst-server/src/rooms.rs: the configurations of rooms.
pub mod Pointers
mod Examples
