-- ===== src/Lua/Depth/Shallow.antt =====
-- While a script is checked, no scope that is open has an expression deeper than 64.
use dst_server.Base.{◌+◌, ◌≤◌, All}
use dst_server.Lua.Depth.{ScriptScope, Scopes}

-- The operators of a scope's expression, above the deepest scope that was closed in it.
abbrev pub IsShallow : ScriptScope → Type 0
IsShallow s = s.operators + s.nested_depth ≤ 64

abbrev pub AreShallow : Scopes → Type 0
AreShallow s = IsShallow s.top × All IsShallow s.rest
