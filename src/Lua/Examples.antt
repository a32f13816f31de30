-- ===== src/Lua/Examples.antt =====
-- A text with a quote, a newline and a letter outside ASCII, and a script with a table and a block.
use dst_server.Base.{
  ◌≡◌, refl, Bool, true, false, List, [], ◌∷◌, ◌++◌, some, ok, err, message, Bytes, Holds,
  if◌then◌else◌, leb, length, encode_utf8, ◌>>=◌,
}
use dst_server.Lua.Strings.{
  string_literal, double, string, max_source_length, render_string, normalize_line_endings, Chars,
}
use dst_server.Lua.Strings.Closing.{literal_of, behind_literal}
use dst_server.Lua.Strings.Fits.{limited, render_string-limited}
use dst_server.Lua.Strings.RoundTrip.{string-render_string}
use dst_server.Lua.Depth.{
  Symbol, Lexed, identifier, number, symbol, left_brace, right_brace, equal, function_, end, return,
  other_symbol, left_paren, right_paren, check_script_depth,
}
use dst_server.Lua.Depth.Balanced.{open_at_end, check_script_depth-balanced}

abbrev greeting : Chars
greeting = 34 ∷ 10 ∷ 233 ∷ []

string-render_string_example :
    Holds
      (λ out.
        (literal : Bytes) × ((out ≡ (61 ∷ []) ++ (34 ∷ (literal ++ (34 ∷ []))))
          × ((string (string_literal double literal) ≡ ok greeting)
              × ((normalize_line_endings literal ≡ literal)
                  × ((rest : Bytes) → behind_literal (literal ++ (34 ∷ rest)) ≡ some rest)))))
      (render_string greeting (61 ∷ []))
string-render_string_example = string-render_string greeting (61 ∷ []) (refl, (refl, (refl, tt)))

-- `="\"\010é"`.
rendered_eq :
    render_string greeting (61 ∷ [])
    ≡ ok (61 ∷ 34 ∷ 92 ∷ 34 ∷ 92 ∷ 48 ∷ 49 ∷ 48 ∷ 195 ∷ 169 ∷ 34 ∷ [])
unfolding render_string
rendered_eq = refl

render_string-limited_example : render_string greeting (61 ∷ []) ≡ (
    if leb (length (encode_utf8 greeting)) max_source_length
    then (limited ((61 ∷ []) ++ (34 ∷ literal_of greeting)) >>= λ out. ok (out ++ (34 ∷ [])))
    else err (message "Lua string exceeds the byte limit"))
render_string-limited_example = render_string-limited 34 (10 ∷ 233 ∷ []) (61 ∷ [])

-- `f = function() return { 1 } end`, and which symbols are operators.
abbrev script : List Lexed
script =
    identifier
    ∷ symbol equal
    ∷ symbol function_
    ∷ symbol left_paren
    ∷ symbol right_paren
    ∷ symbol return
    ∷ symbol left_brace
    ∷ number
    ∷ symbol right_brace
    ∷ symbol end
    ∷ []

abbrev is_operator : Symbol → Bool
is_operator (other_symbol n) = true
is_operator s = false

script-passes : check_script_depth is_operator script ≡ ok tt
unfolding check_script_depth
script-passes = refl

check_script_depth-balanced_example :
    Holds (λ _. open_at_end is_operator [] script ≡ some []) (check_script_depth is_operator script)
check_script_depth-balanced_example = check_script_depth-balanced is_operator script
