-- ===== src/Deployment/Quoting.antt =====
-- The values of a unit file in crates/dst-server/src/deployment.rs: quoted ones, and volumes.
pub mod RoundTrip
use dst_server.Base.{
  ℕ, ◌≡◌, Bool, true, false, not, ◌&&◌, ◌||◌, List, [], ◌∷◌, ◌++◌, Option, none, some, Result, ok,
  err, message, Fallible, ◌>>=◌, ◌>>◌, ensure, or_fail, has_byte, ◌==◌, if◌then◌else◌, is_empty,
  any,
}

abbrev pub Chars : Type 0
Chars = List ℕ

abbrev pub is_line_code : ℕ → Bool
is_line_code c = c == 0 || (c == 13 || c == 10)

-- No NUL and no newline.
unfoldable pub literal : Chars → Fallible (Unit {0})
literal value = ensure (not (any is_line_code value)) "unit value contains NUL or a newline"

-- `replace(c, "cc")`.
unfoldable pub double : ℕ → Chars → Chars
double c [] = []
double c (d ∷ ds) = let rest = double c ds in if d == c then d ∷ d ∷ rest else d ∷ rest

-- `replace('"', "\\\"")`.
unfoldable pub escape_quotes : Chars → Chars
escape_quotes [] = []
escape_quotes (d ∷ ds) = let rest = escape_quotes ds in if d == 34 then 92 ∷ d ∷ rest else d ∷ rest

-- A backslash, `%` and `$` are doubled.
unfoldable pub escape : Chars → Chars
unfolding double
escape value = double 36 (double 37 (double 92 value))

unfoldable pub volume_escape : Chars → Chars
unfolding double
volume_escape value = double 36 (double 37 value)

unfoldable pub quote : Chars → Chars
unfolding escape escape_quotes
quote value = 34 ∷ (escape_quotes (escape value) ++ (34 ∷ []))

abbrev pub push_char : ℕ → Fallible Chars → Fallible Chars
push_char c rest = rest >>= λ cs. ok (c ∷ cs)

-- The loop of `volume_unescape`.
unfoldable pub undouble : Chars → Fallible Chars
undouble [] = ok []
undouble (c ∷ []) =
    if c == 36 || c == 37
    then err (message "dynamic volume expansion is unsupported")
    else ok (c ∷ [])
undouble (c ∷ d ∷ rest) =
    let one = undouble (d ∷ rest) in
    let two = undouble rest in
    if c == 36 || c == 37
    then (if d == c
        then push_char c two
        else err (message "dynamic volume expansion is unsupported"))
    else push_char c one

unfoldable pub volume_unescape : Chars → Fallible Chars
unfolding undouble literal
volume_unescape value = do decoded ← undouble value; literal decoded; ok decoded

-- The loop of `unquote`.
unfoldable pub unescape : Chars → Fallible Chars
unescape [] = ok []
unescape (c ∷ []) =
    if c == 92
    then err (message "unfinished unit escape")
    else if c == 36 || c == 37
    then err (message "dynamic unit expansion is unsupported")
    else if c == 34
    then err (message "unescaped quote in unit value")
    else ok (c ∷ [])
unescape (c ∷ d ∷ rest) =
    let one = unescape (d ∷ rest) in
    let two = unescape rest in
    if c == 92
    then (if d == 92 || d == 34 then push_char d two else err (message "unsupported unit escape"))
    else if c == 36 || c == 37
    then (if d == c then push_char c two else err (message "dynamic unit expansion is unsupported"))
    else if c == 34
    then err (message "unescaped quote in unit value")
    else push_char c one

-- `strip_suffix('"')`.
unfoldable pub strip_last : Chars → Option Chars
strip_last [] = none
strip_last (c ∷ []) = if c == 34 then some [] else none
strip_last (c ∷ d ∷ rest) = elim (strip_last (d ∷ rest)) [
  | none ↦ none
  | some front ↦ some (c ∷ front)
]

unfoldable pub strip_quotes : Chars → Option Chars
strip_quotes [] = none
strip_quotes (c ∷ rest) = if c == 34 then strip_last rest else none

unfoldable pub unquote : Chars → Fallible Chars
unfolding unescape literal
unquote value = do
  inner ← or_fail (strip_quotes value) (message "expected a quoted literal")
  decoded ← unescape inner
  literal decoded
  ok decoded

-- A value with no white space, and some.
unfoldable pub token : (ℕ → Bool) → Chars → Fallible (Unit {0})
unfolding literal
token is_whitespace value = do
  literal value
  ensure (not (is_empty value) && not (any is_whitespace value))
      "unit token is empty or contains whitespace"
