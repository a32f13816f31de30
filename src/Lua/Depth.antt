-- ===== src/Lua/Depth.antt =====
-- How deep a Lua script nests: `check_script_depth` of crates/dst-server/src/lua.rs over the tokens
-- of full_moon's lexer. The symbols that the source names have constructors; which symbols are
-- binary operators is a parameter, `has_precedence`.
pub mod Balanced
pub mod Shallow
use dst_server.Base.{
  ℕ, ◌+◌, max, Bool, true, false, not, ◌&&◌, ◌||◌, List, [], ◌∷◌, Option, none, some, Result, ok,
  err, message, Fallible, ◌>>=◌, ◌>>◌, ensure, length, leb, ltb, ◌==◌, if◌then◌else◌,
}

pub data Symbol : Type 0 where
  left_brace left_bracket left_paren do_ then_ function_ repeat : Symbol
  right_brace right_bracket right_paren end else_if until : Symbol
  equal comma semicolon local return break if_ while for else_ : Symbol
  hash not_ true_ false_ nil ellipsis : Symbol
  other_symbol : ℕ → Symbol

-- A token, or a report of the lexer that there is none.
pub data Lexed : Type 0 where
  identifier number string_literal other_token bad_token : Lexed
  symbol : Symbol → Lexed

pub record ScriptScope : Type 0 where
  pub opening : Option Symbol
  pub nesting : ℕ
  pub operators : ℕ
  pub nested_depth : ℕ
  pub max_depth : ℕ

abbrev pub max_nesting : ℕ
max_nesting = 64

abbrev pub max_tokens : ℕ
max_tokens = 65536

-- The parser's stack that a scope takes.
abbrev pub scope_nesting : Option Symbol → Bool → ℕ
scope_nesting (some do_) can_end = 4
scope_nesting (some then_) can_end = 4
scope_nesting (some function_) can_end = 4
scope_nesting (some repeat) can_end = 4
scope_nesting (some left_paren) can_end = if can_end then 2 else 1
scope_nesting (some left_brace) can_end = if can_end then 2 else 1
scope_nesting _ can_end = 1

abbrev pub new_scope : Option Symbol → Bool → ScriptScope
new_scope opening can_end = record {
  opening = opening;
  nesting = scope_nesting opening can_end;
  operators = 0;
  nested_depth = 0;
  max_depth = 0;
}

abbrev pub finish_expression : ScriptScope → ScriptScope
finish_expression s = record s {
  max_depth = max s.max_depth (s.operators + s.nested_depth);
  operators = 0;
  nested_depth = 0;
}

-- What a symbol does.
pub data Role : Type 0 where
  opens closes ends counts nothing : Role

abbrev pub role : (Symbol → Bool) → Symbol → Role
role has_precedence left_brace = opens
role has_precedence left_bracket = opens
role has_precedence left_paren = opens
role has_precedence do_ = opens
role has_precedence then_ = opens
role has_precedence function_ = opens
role has_precedence repeat = opens
role has_precedence right_brace = closes
role has_precedence right_bracket = closes
role has_precedence right_paren = closes
role has_precedence end = closes
role has_precedence else_if = closes
role has_precedence until = closes
role has_precedence equal = ends
role has_precedence comma = ends
role has_precedence semicolon = ends
role has_precedence local = ends
role has_precedence return = ends
role has_precedence break = ends
role has_precedence if_ = ends
role has_precedence while = ends
role has_precedence for = ends
role has_precedence else_ = ends
role has_precedence hash = counts
role has_precedence not_ = counts
role has_precedence s = if has_precedence s then counts else nothing

-- `do`, `then` and `repeat` end the expression before them.
abbrev pub ends_before : Symbol → Bool
ends_before do_ = true
ends_before then_ = true
ends_before repeat = true
ends_before s = false

abbrev pub ends_after : Symbol → Bool
ends_after else_if = true
ends_after until = true
ends_after s = false

abbrev pub pairs : Option Symbol → Symbol → Bool
pairs (some left_brace) right_brace = true
pairs (some left_bracket) right_bracket = true
pairs (some left_paren) right_paren = true
pairs (some do_) end = true
pairs (some then_) end = true
pairs (some function_) end = true
pairs (some then_) else_if = true
pairs (some repeat) until = true
pairs _ _ = false

-- The scopes, the innermost first; there is always one.
pub record Scopes : Type 0 where
  pub top : ScriptScope
  pub rest : List ScriptScope

abbrev pub open_scope : Scopes → Symbol → Bool → Fallible Scopes
open_scope s sym can_end =
    let outer = if ends_before sym then finish_expression s.top else s.top in
    do
      ensure (leb (1 + (1 + length s.rest)) (max_nesting + 1)) "Lua nesting exceeds the limit"
      ok (record { top = new_scope (some sym) can_end; rest = outer ∷ s.rest })

abbrev pub nested_in : ScriptScope → ScriptScope → ScriptScope
nested_in scope parent = record parent {
  nested_depth = max parent.nested_depth ((finish_expression scope).max_depth + scope.nesting);
}

abbrev pub close_in : ScriptScope → List ScriptScope → Symbol → Fallible Scopes
close_in scope [] sym = err (message "unbalanced Lua scope")
close_in scope (parent ∷ rest) sym =
    let p = nested_in scope parent in
    do
      ensure (pairs scope.opening sym) "unbalanced Lua scope"
      ensure (leb (p.operators + p.nested_depth) max_nesting)
          "Lua expression exceeds the depth limit"
      ok (record { top = if ends_after sym then finish_expression p else p; rest = rest })

abbrev pub count_operator : Scopes → Fallible Scopes
count_operator s =
    let t = record (s.top) { operators = s.top.operators + 1 } in
    do
      ensure (leb (t.operators + t.nested_depth) max_nesting)
          "Lua expression exceeds the depth limit"
      ok (record s { top = t })

abbrev pub act_on : Role → Scopes → Symbol → Bool → Fallible Scopes
act_on opens s sym can_end = open_scope s sym can_end
act_on closes s sym can_end = close_in s.top s.rest sym
act_on ends s sym can_end = ok (record s { top = finish_expression s.top })
act_on counts s sym can_end = count_operator s
act_on nothing s sym can_end = ok s

-- A name or a function after a complete expression starts a statement.
abbrev pub starts_statement : Lexed → Bool
starts_statement identifier = true
starts_statement (symbol function_) = true
starts_statement t = false

abbrev pub ends_expression : Lexed → Bool
ends_expression identifier = true
ends_expression number = true
ends_expression string_literal = true
ends_expression (symbol right_brace) = true
ends_expression (symbol right_bracket) = true
ends_expression (symbol right_paren) = true
ends_expression (symbol end) = true
ends_expression (symbol true_) = true
ends_expression (symbol false_) = true
ends_expression (symbol nil) = true
ends_expression (symbol ellipsis) = true
ends_expression t = false

abbrev pub before_token : Scopes → Bool → Lexed → Scopes
before_token s can_end t =
    if can_end && starts_statement t then record s { top = finish_expression s.top } else s

module _ (has_precedence : Symbol → Bool) where
  unfoldable pub read_token : Scopes → Bool → Lexed → Fallible Scopes
  read_token s can_end (symbol sym) =
      act_on (role has_precedence sym) (before_token s can_end (symbol sym)) sym can_end
  read_token s can_end bad_token = err (message "invalid Lua 5.1 syntax")
  read_token s can_end t = ok (before_token s can_end t)

  -- The loop, with the tokens that are read so far.
  unfoldable pub check_tokens : Scopes → Bool → ℕ → List Lexed → Fallible Scopes
  unfolding read_token
  check_tokens s can_end read [] = ok s
  check_tokens s can_end read (bad_token ∷ ts) = err (message "invalid Lua 5.1 syntax")
  check_tokens s can_end read (t ∷ ts) = do
    ensure (leb (read + 1) max_tokens) "Lua source exceeds the token limit"
    next ← read_token s can_end t
    check_tokens next (ends_expression t) (read + 1) ts

  unfoldable pub check_script_depth : List Lexed → Fallible (Unit {0})
  unfolding check_tokens
  check_script_depth ts = do
    s ← check_tokens (record { top = new_scope none false; rest = [] }) false 0 ts
    ensure (leb (1 + length s.rest) 1) "unclosed Lua scope"
