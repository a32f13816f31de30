-- ===== src/Lua.antt =====
-- crates/dst-server/src/lua.rs: the texts of Lua, and how deep a script nests. The lexer and the
-- parser are those of full_moon.
pub mod Strings
pub mod Depth
mod Examples
