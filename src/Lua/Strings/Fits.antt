-- ===== src/Lua/Strings/Fits.antt =====
-- When a text can be rendered as a literal of Lua.
use dst_server.Base.{
  ℕ, ◌-◌, ◌≤◌, ◌≡◌, refl, [], ◌∷◌, ◌++◌, ok, err, message, Bytes, Fallible, ◌>>=◌, ◌>>◌, ensure,
  length, leb, arith, sym, append_assoc, append-nil, encode_utf8, if◌then◌else◌,
}
use dst_server.Lua.Strings.{Chars, max_source_length, render_char, render_chars, render_string}
use dst_server.Lua.Strings.Closing.{literal_of}

length-append : (xs ys : Bytes) → length xs ≤ length (xs ++ ys)
length-append [] ys = omega arith
length-append (x ∷ xs) ys = omega (arith, length-append xs ys)

-- The bytes of the output, where they stay within the limit.
abbrev pub limited : Bytes → Fallible Bytes
limited out =
    if leb (length out) (max_source_length - 7)
    then ok out
    else err (message "Lua output exceeds the byte limit")

longer-limited :
    (out more : Bytes)
    → (ensure (leb (length out) (max_source_length - 7)) "Lua output exceeds the byte limit"
        >> limited (out ++ more))
      ≡ limited (out ++ more)
longer-limited out more = ground (arith, length-append out more)

render_chars-step :
    (c : ℕ) (cs : Chars) (output : Bytes)
    → render_chars (c ∷ cs) output ≡ (
        ensure
          (leb (length (output ++ render_char c)) (max_source_length - 7))
          "Lua output exceeds the byte limit"
        >> render_chars cs (output ++ render_char c))
unfolding render_chars
render_chars-step c cs output = refl

render_chars-none : (output : Bytes) → render_chars [] output ≡ ok output
unfolding render_chars
render_chars-none output = refl

literal_of-step : (c : ℕ) (cs : Chars) → literal_of (c ∷ cs) ≡ render_char c ++ literal_of cs
unfolding literal_of
literal_of-step c cs = refl

literal_of-none : literal_of [] ≡ []
unfolding literal_of
literal_of-none = refl

-- The loop checks the output of each step; the last one is the longest.
render_chars-limited :
    (c : ℕ) (cs : Chars) (output : Bytes)
    → render_chars (c ∷ cs) output ≡ limited (output ++ literal_of (c ∷ cs))
render_chars-limited c [] output =
    rw
      (
        render_chars-step c [] output,
        render_chars-none (output ++ render_char c),
        literal_of-step c [],
        literal_of-none,
        append-nil (render_char c),
      )
      (ground arith)
render_chars-limited c (d ∷ ds) output =
    rw
      (
        render_chars-step c (d ∷ ds) output,
        render_chars-limited d ds (output ++ render_char c),
        literal_of-step c (d ∷ ds),
        sym (append_assoc output (render_char c) (literal_of (d ∷ ds))),
      )
      (longer-limited (output ++ render_char c) (literal_of (d ∷ ds)))

-- Rendering a text that is not empty, whatever the output before it, comes to one test of its
-- bytes and one of the output up to the closing quote, seven bytes below the limit of a source:
-- where both hold it succeeds, and otherwise it fails. No other length stops it.
pub render_string-limited :
    (c : ℕ) (cs : Chars) (output : Bytes)
    → render_string (c ∷ cs) output ≡ (
        if leb (length (encode_utf8 (c ∷ cs))) max_source_length
        then (limited (output ++ (34 ∷ literal_of (c ∷ cs))) >>= λ out. ok (out ++ (34 ∷ [])))
        else err (message "Lua string exceeds the byte limit"))
unfolding render_string
render_string-limited c cs output =
    rw
      (
        render_chars-limited c cs (output ++ (34 ∷ [])),
        append_assoc output (34 ∷ []) (literal_of (c ∷ cs)),
      )
      (ground arith)
