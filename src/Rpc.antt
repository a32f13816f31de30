-- ===== src/Rpc.antt =====
-- crates/dst-server/src/rpc/codec.rs: requests and values on the wire of schema/room.capnp.
pub mod Values
pub mod Schema
pub mod Requests
pub mod Envelopes
mod Examples
