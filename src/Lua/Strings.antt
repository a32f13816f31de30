-- ===== src/Lua/Strings.antt =====
-- Lua's string literals in crates/dst-server/src/lua.rs: the bytes of a literal are decoded, and a
-- text is rendered as one.
pub mod Closing
pub mod Fits
pub mod RoundTrip
use dst_server.Base.{
  ℕ, ◌+◌, ◌-◌, ◌*◌, ◌/◌, ◌%◌, Bool, true, false, not, ◌&&◌, ◌||◌, List, [], ◌∷◌, ◌++◌, Option, none,
  some, Result, ok, err, message, Fallible, ◌>>=◌, ◌>>◌, ensure, or_fail, Bytes, is_digit,
  is_control_code, encode_char, encode_utf8, from_utf8, length, ltb, leb, ◌==◌, if◌then◌else◌,
}

abbrev pub Chars : Type 0
Chars = List ℕ

abbrev pub max_source_length : ℕ
max_source_length = 1048576

-- CR, LF, CRLF and LFCR are one newline.
unfoldable pub normalize_line_endings : Chars → Chars
normalize_line_endings [] = []
normalize_line_endings (c ∷ []) = (if c == 13 then 10 else c) ∷ []
normalize_line_endings (c ∷ d ∷ rest) =
    let one = normalize_line_endings (d ∷ rest) in
    let two = normalize_line_endings rest in
    if c == 13
    then 10 ∷ (if d == 10 then two else one)
    else if c == 10
    then 10 ∷ (if d == 13 then two else one)
    else c ∷ one

-- A token of full_moon, and the text within its quotes or brackets.
pub data Quotes : Type 0 where
  single double brackets : Quotes

pub data Token : Type 0 where
  string_literal : Quotes → Bytes → Token
  other : Token

abbrev pub push_byte : ℕ → Fallible Bytes → Fallible Bytes
push_byte b rest = do bs ← rest; ok (b ∷ bs)

abbrev pub push_number : ℕ → Fallible Bytes → Fallible Bytes
push_number n rest =
    if ltb n 256 then push_byte n rest else err (message "decimal Lua escape exceeds one byte")

-- What a letter or a quote after the backslash stands for.
abbrev pub escaped_byte : ℕ → Option ℕ
escaped_byte e =
    if e == 97
    then some 7
    else if e == 98
    then some 8
    else if e == 102
    then some 12
    else if e == 110
    then some 10
    else if e == 114
    then some 13
    else if e == 116
    then some 9
    else if e == 118
    then some 11
    else if e == 92 || (e == 39 || e == 34)
    then some e
    else none

abbrev pub push_escaped : Option ℕ → Fallible Bytes → Fallible Bytes
push_escaped none rest = err (message "unsupported Lua string escape")
push_escaped (some b) rest = push_byte b rest

-- The other half of a newline of two bytes.
abbrev pub is_pair : ℕ → ℕ → Bool
is_pair e x = (e == 10 && x == 13) || (e == 13 && x == 10)

-- The loop over the bytes of a quoted literal.
unfoldable pub decode : Bytes → Fallible Bytes
decode [] = ok []
decode (b ∷ []) = if b == 92 then err (message "incomplete Lua string escape") else ok (b ∷ [])
decode (b ∷ e ∷ []) =
    let one = decode (e ∷ []) in
    if not (b == 92)
    then push_byte b one
    else if is_digit e
    then push_number (e - 48) (ok [])
    else if e == 10 || e == 13
    then ok (10 ∷ [])
    else push_escaped (escaped_byte e) (ok [])
decode (b ∷ e ∷ x ∷ []) =
    let one = decode (e ∷ x ∷ []) in
    let two = decode (x ∷ []) in
    if not (b == 92)
    then push_byte b one
    else if is_digit e
    then (if is_digit x
        then push_number ((e - 48) * 10 + (x - 48)) (ok [])
        else push_number (e - 48) two)
    else if e == 10 || e == 13
    then push_byte 10 (if is_pair e x then ok [] else two)
    else push_escaped (escaped_byte e) two
decode (b ∷ e ∷ x ∷ y ∷ rest) =
    let one = decode (e ∷ x ∷ y ∷ rest) in
    let two = decode (x ∷ y ∷ rest) in
    let three = decode (y ∷ rest) in
    let four = decode rest in
    if not (b == 92)
    then push_byte b one
    else if is_digit e
    then (if not (is_digit x)
        then push_number (e - 48) two
        else if is_digit y
        then push_number (((e - 48) * 10 + (x - 48)) * 10 + (y - 48)) four
        else push_number ((e - 48) * 10 + (x - 48)) three)
    else if e == 10 || e == 13
    then push_byte 10 (if is_pair e x then three else two)
    else push_escaped (escaped_byte e) two

-- `strip_prefix('\n')`.
abbrev pub strip_newline : Bytes → Bytes
strip_newline [] = []
strip_newline (b ∷ bs) = if b == 10 then bs else b ∷ bs

abbrev pub utf8_text : Bytes → Fallible Chars
utf8_text bs = or_fail (from_utf8 bs) (message "Lua string must contain valid UTF-8")

unfoldable pub string : Token → Fallible Chars
unfolding decode from_utf8
string (string_literal brackets literal) = utf8_text (strip_newline literal)
string (string_literal single literal) = do decoded ← decode literal; utf8_text decoded
string (string_literal double literal) = do decoded ← decode literal; utf8_text decoded
string other = err (message "expected a quoted Lua string")

-- `{byte:03}` after a backslash.
abbrev pub decimal_escape : ℕ → Bytes
decimal_escape b = 92 ∷ (48 + b / 100) ∷ (48 + b / 10 % 10) ∷ (48 + b % 10) ∷ []

unfoldable pub decimal_escapes : Bytes → Bytes
decimal_escapes [] = []
decimal_escapes (b ∷ bs) = decimal_escape b ++ decimal_escapes bs

unfoldable pub render_char : ℕ → Bytes
unfolding decimal_escapes encode_char
render_char c =
    if c == 34
    then 92 ∷ 34 ∷ []
    else if c == 92
    then 92 ∷ 92 ∷ []
    else if is_control_code c
    then decimal_escapes (encode_char c)
    else encode_char c

-- The loop of `render_string`, with the output so far.
unfoldable pub render_chars : Chars → Bytes → Fallible Bytes
unfolding render_char
render_chars [] output = ok output
render_chars (c ∷ cs) output = do
  ensure (leb (length (output ++ render_char c)) (max_source_length - 7))
      "Lua output exceeds the byte limit"
  render_chars cs (output ++ render_char c)

unfoldable pub render_string : Chars → Bytes → Fallible Bytes
unfolding encode_utf8 render_chars
render_string s output = do
  ensure (leb (length (encode_utf8 s)) max_source_length) "Lua string exceeds the byte limit"
  rendered ← render_chars s (output ++ (34 ∷ []))
  ok (rendered ++ (34 ∷ []))
