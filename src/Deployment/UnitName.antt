-- ===== src/Deployment/UnitName.antt =====
-- Names of units in crates/dst-server/src/deployment.rs: their escapes, and which names are valid.
pub mod Decoded
use dst_server.Base.{
  ℕ, ◌+◌, ◌/◌, ◌%◌, ◌≡◌, Bool, true, false, not, ◌&&◌, ◌||◌, List, [], ◌∷◌, ◌++◌, Result, ok, err,
  message, Fallible, ◌>>=◌, ◌>>◌, ensure, has_byte, is_digit, is_alphanumeric, encode_utf8, Bytes,
  ◌==◌, leb, ltb, if◌then◌else◌, is_empty, length,
}
use dst_server.Deployment.Quoting.{Chars, literal}

-- `is_ascii_alphanumeric`, or one of `:_.-`.
abbrev pub is_unit_byte : ℕ → Bool
is_unit_byte b = is_alphanumeric b || has_byte b (58 ∷ 95 ∷ 46 ∷ 45 ∷ [])

abbrev pub is_hex_digit : ℕ → Bool
is_hex_digit b = is_digit b || ((leb 97 b && leb b 102) || (leb 65 b && leb b 70))

-- A digit of `{:x}`.
abbrev pub hex_digit : ℕ → ℕ
hex_digit n = if ltb n 10 then 48 + n else 87 + n

-- `\x` and two digits.
abbrev pub hex_escape : ℕ → Bytes
hex_escape b = 92 ∷ 120 ∷ hex_digit (b / 16) ∷ hex_digit (b % 16) ∷ []

-- The loop over the bytes of the name; `first` at the index 0.
unfoldable pub escape_bytes : Bool → Bytes → Bytes
escape_bytes first [] = []
escape_bytes first (b ∷ bs) =
    let rest = escape_bytes false bs in
    if is_unit_byte b && not (first && b == 46) then b ∷ rest else hex_escape b ++ rest

-- The two digits of an escape, and whether they are not of NUL.
abbrev pub escape_digits : ℕ → ℕ → Bool
escape_digits high low =
    is_hex_digit high && (is_hex_digit low && (not (high == 48) || not (low == 48)))

-- The loop of `validate_unit_name`.
unfoldable pub validate_bytes : Bytes → Fallible (Unit {0})
validate_bytes [] = ok tt
validate_bytes (b ∷ []) =
    if b == 92
    then err (message "invalid unit escape")
    else ensure (is_unit_byte b) "invalid unit name"
validate_bytes (b ∷ x ∷ []) =
    let one = validate_bytes (x ∷ []) in
    if b == 92
    then err (message "invalid unit escape")
    else ensure (is_unit_byte b) "invalid unit name" >> one
validate_bytes (b ∷ x ∷ high ∷ []) =
    let one = validate_bytes (x ∷ high ∷ []) in
    if b == 92
    then err (message "invalid unit escape")
    else ensure (is_unit_byte b) "invalid unit name" >> one
validate_bytes (b ∷ x ∷ high ∷ low ∷ bs) =
    let one = validate_bytes (x ∷ high ∷ low ∷ bs) in
    let four = validate_bytes bs in
    if b == 92
    then ensure (x == 120) "invalid unit escape"
      >> (ensure (escape_digits high low) "invalid unit escape" >> four)
    else ensure (is_unit_byte b) "invalid unit name" >> one

abbrev pub starts_with : ℕ → Bytes → Bool
starts_with b [] = false
starts_with b (c ∷ cs) = c == b

unfoldable pub validate_unit_name : Bytes → Fallible (Unit {0})
unfolding validate_bytes
validate_unit_name value =
    ensure (not (is_empty value) && (leb (length value) 240 && not (starts_with 46 value)))
      "unsafe or too long unit name"
    >> validate_bytes value

unfoldable pub escape_unit_name : Chars → Fallible Bytes
unfolding literal escape_bytes validate_unit_name
escape_unit_name value = do
  literal value
  ensure (not (is_empty value)) "unit name is empty"
  let name = escape_bytes true (encode_utf8 value)
  validate_unit_name name
  ok name
