-- ===== src/Deployment/UnitName/Decoded.antt =====
-- An escaped name of a unit is a valid one, and no two texts are escaped alike.
use dst_server.Base.{
  ℕ, ◌+◌, ◌-◌, ◌*◌, ◌/◌, ◌%◌, ◌<◌, ◌≡◌, ◌≢◌, refl, Bool, true, false, not, ◌&&◌, [], ◌∷◌, ◌++◌,
  some, String, Holds, Holds-ok, ok, Fallible, ◌>>◌, ensure, encode_utf8, encode_char, from_utf8,
  from_utf8-encode_utf8, is_scalar, Bytes, ◌==◌, leb, if◌then◌else◌, is_empty, length, All, All-++,
  Bool-cases, inl, inr, arith, any,
}
use dst_server.Deployment.Quoting.{Chars, literal, is_line_code}
use dst_server.Deployment.UnitName.{
  is_unit_byte, hex_digit, hex_escape, escape_bytes, escape_digits, validate_bytes, starts_with,
  validate_unit_name, escape_unit_name,
}

-- A byte other than NUL.
abbrev pub IsByte : ℕ → Type 0
IsByte b = (0 < b) × (b < 256)

abbrev pub unhex : ℕ → ℕ
unhex d = if leb d 57 then d - 48 else d - 87

-- An inverse of `escape_bytes`, which shows that no two names are escaped alike. It is not how
-- systemd unescapes: systemd reads `-`, which the code leaves as it is, as `/`.
unfoldable undo_escapes : Bytes → Bytes
undo_escapes [] = []
undo_escapes (b ∷ []) = b ∷ []
undo_escapes (b ∷ x ∷ []) = b ∷ undo_escapes (x ∷ [])
undo_escapes (b ∷ x ∷ high ∷ []) = b ∷ undo_escapes (x ∷ high ∷ [])
undo_escapes (b ∷ x ∷ high ∷ low ∷ bs) =
    let one = undo_escapes (x ∷ high ∷ low ∷ bs) in
    let four = undo_escapes bs in if b == 92 then (unhex high * 16 + unhex low) ∷ four else b ∷ one

unescape-plain :
    (b : ℕ) (bs : Bytes) → (b == 92) ≡ false → undo_escapes (b ∷ bs) ≡ b ∷ undo_escapes bs
unfolding undo_escapes
unescape-plain b [] e = refl
unescape-plain b (x ∷ []) e = refl
unescape-plain b (x ∷ y ∷ []) e = refl
unescape-plain b (x ∷ y ∷ z ∷ bs) e = rw e

unhex-hex : (b : ℕ) → b < 256 → unhex (hex_digit (b / 16)) * 16 + unhex (hex_digit (b % 16)) ≡ b
unhex-hex b l = ground arith

validate-plain :
    (b : ℕ) (bs : Bytes)
    → (b == 92) ≡ false
    → is_unit_byte b ≡ true
    → validate_bytes (b ∷ bs) ≡ validate_bytes bs
unfolding validate_bytes
validate-plain b [] e u = rw (e, u)
validate-plain b (x ∷ []) e u = rw (e, u)
validate-plain b (x ∷ y ∷ []) e u = rw (e, u)
validate-plain b (x ∷ y ∷ z ∷ bs) e u = rw (e, u)

escape_digits-hex :
    (b : ℕ) → IsByte b → escape_digits (hex_digit (b / 16)) (hex_digit (b % 16)) ≡ true
escape_digits-hex b l = ground arith

validate-hex :
    (b : ℕ) (bs : Bytes) → IsByte b → validate_bytes (hex_escape b ++ bs) ≡ validate_bytes bs
unfolding validate_bytes
validate-hex b bs l = rw (escape_digits-hex b l)

unit-not-backslash : (b : ℕ) → is_unit_byte b ≡ true → (b == 92) ≡ false
unit-not-backslash b e = ground arith

abbrev kept_byte : Bool → ℕ → Bool
kept_byte first b = is_unit_byte b && not (first && b == 46)

escape_bytes-plain :
    (first : Bool) (b : ℕ) (bs : Bytes)
    → kept_byte first b ≡ true
    → escape_bytes first (b ∷ bs) ≡ b ∷ escape_bytes false bs
unfolding escape_bytes
escape_bytes-plain first b bs e = rw e

escape_bytes-hex :
    (first : Bool) (b : ℕ) (bs : Bytes)
    → kept_byte first b ≡ false
    → escape_bytes first (b ∷ bs) ≡ hex_escape b ++ escape_bytes false bs
unfolding escape_bytes
escape_bytes-hex first b bs e = rw e

unescape-hex :
    (b : ℕ) (bs : Bytes) → IsByte b → undo_escapes (hex_escape b ++ bs) ≡ b ∷ undo_escapes bs
unfolding undo_escapes
unescape-hex b bs l = rw (unhex-hex b l.1)

kept-unit : (first : Bool) (b : ℕ) → kept_byte first b ≡ true → is_unit_byte b ≡ true
kept-unit first b e = grind (arith, e)

nothing-escaped : escape_bytes true [] ≡ []
unfolding escape_bytes
nothing-escaped = refl

nothing-unescaped : (first : Bool) → undo_escapes (escape_bytes first []) ≡ []
unfolding escape_bytes undo_escapes
nothing-unescaped first = refl

nothing-validated : (first : Bool) → validate_bytes (escape_bytes first []) ≡ ok tt
unfolding escape_bytes validate_bytes
nothing-validated first = refl

kept-no-dot : (b : ℕ) → kept_byte true b ≡ true → (b == 46) ≡ false
kept-no-dot b e = grind (arith, e)

unescape-escape_bytes :
    (first : Bool) (bs : Bytes) → All IsByte bs → undo_escapes (escape_bytes first bs) ≡ bs
unescape-escape_bytes first [] a = nothing-unescaped first
unescape-escape_bytes first (b ∷ bs) (l, a) = elim (Bool-cases (kept_byte first b)) [
  | inl e ↦ rw (
    escape_bytes-plain first b bs e,
    unescape-plain b (escape_bytes false bs) (unit-not-backslash b (kept-unit first b e)),
    unescape-escape_bytes false bs a,
  )
  | inr e ↦ rw (
    escape_bytes-hex first b bs e,
    unescape-hex b (escape_bytes false bs) l,
    unescape-escape_bytes false bs a,
  )
]

validate-escape_bytes :
    (first : Bool) (bs : Bytes) → All IsByte bs → validate_bytes (escape_bytes first bs) ≡ ok tt
validate-escape_bytes first [] a = nothing-validated first
validate-escape_bytes first (b ∷ bs) (l, a) = elim (Bool-cases (kept_byte first b)) [
  | inl e ↦
      (let u = kept-unit first b e in
        rw (
          escape_bytes-plain first b bs e,
          validate-plain b (escape_bytes false bs) (unit-not-backslash b u) u,
          validate-escape_bytes false bs a,
        ))
  | inr e ↦ rw (
    escape_bytes-hex first b bs e,
    validate-hex b (escape_bytes false bs) l,
    validate-escape_bytes false bs a,
  )
]

-- The first byte of an escaped name is no dot.
starts_with-escape_bytes : (bs : Bytes) → starts_with 46 (escape_bytes true bs) ≡ false
starts_with-escape_bytes [] = rw nothing-escaped
starts_with-escape_bytes (b ∷ bs) = elim (Bool-cases (kept_byte true b)) [
  | inl e ↦ rw (escape_bytes-plain true b bs e, kept-no-dot b e)
  | inr e ↦ rw (escape_bytes-hex true b bs e)
]

is_empty-escape_bytes : (bs : Bytes) → is_empty (escape_bytes true bs) ≡ is_empty bs
is_empty-escape_bytes [] = rw nothing-escaped
is_empty-escape_bytes (b ∷ bs) = elim (Bool-cases (kept_byte true b)) [
  | inl e ↦ rw (escape_bytes-plain true b bs e)
  | inr e ↦ rw (escape_bytes-hex true b bs e)
]

encode_char-IsByte : (c : ℕ) → is_scalar c ≡ true → 0 < c → All IsByte (encode_char c)
unfolding encode_char
encode_char-IsByte c s l = ground arith

encode_utf8-IsByte :
    (cs : Chars)
    → All (λ c. is_scalar c ≡ true) cs
    → any is_line_code cs ≡ false
    → All IsByte (encode_utf8 cs)
unfolding encode_utf8
encode_utf8-IsByte [] s l = tt
encode_utf8-IsByte (c ∷ cs) (s, ss) l =
    All-++ IsByte (encode_char c) (encode_utf8 cs) (encode_char-IsByte c s (grind (arith, l)))
      (encode_utf8-IsByte cs ss (grind (arith, l)))

abbrev pub IsScalars : Chars → Type 0
IsScalars value = All (λ c. is_scalar c ≡ true) value

-- The escaped name a text gets, when it is not too long.
abbrev pub escaped : Chars → Bytes
escaped value = escape_bytes true (encode_utf8 value)

abbrev pub IsNameable : Chars → Type 0
IsNameable value = (any is_line_code value ≡ false) × (is_empty value ≡ false)

is_empty-encode_utf8 : (cs : Chars) → is_empty cs ≡ false → is_empty (encode_utf8 cs) ≡ false
unfolding encode_utf8 encode_char
is_empty-encode_utf8 [] e = ground arith
is_empty-encode_utf8 (c ∷ cs) e = ground arith

guarded-ok :
    (t : Bool) (m : Fallible (Unit {0}))
    → m ≡ ok tt
    → (ensure (t && true) "unsafe or too long unit name" >> m)
      ≡ ensure t "unsafe or too long unit name"
guarded-ok true m e = e
guarded-ok false m e = refl

validate-escaped :
    (v : Chars)
    → IsScalars v
    → IsNameable v
    → validate_unit_name (escaped v)
      ≡ ensure (leb (length (escaped v)) 240) "unsafe or too long unit name"
unfolding validate_unit_name
validate-escaped v s (l, n) =
    let bytes = encode_utf8-IsByte v s l in
    rw
      (
        is_empty-escape_bytes (encode_utf8 v),
        is_empty-encode_utf8 v n,
        starts_with-escape_bytes (encode_utf8 v),
      )
      (guarded-ok (leb (length (escaped v)) 240) (validate_bytes (escaped v))
        (validate-escape_bytes true (encode_utf8 v) bytes))

-- Of a text that is one line and not empty, escaping the name fails only when the escaped name is
-- longer than 240 bytes.
pub escape_unit_name-total :
    (v : Chars)
    → IsScalars v
    → IsNameable v
    → escape_unit_name v
      ≡ (ensure (leb (length (escaped v)) 240) "unsafe or too long unit name" >> ok (escaped v))
unfolding escape_unit_name literal
escape_unit_name-total v s (l, n) = rw (l, n, validate-escaped v s (l, n))

abbrev Decodes : Chars → Bytes → Type 0
Decodes v name = from_utf8 (undo_escapes name) ≡ some v

escaped-Decodes : (v : Chars) → IsScalars v → IsNameable v → Decodes v (escaped v)
escaped-Decodes v s (l, n) =
    rw (unescape-escape_bytes true (encode_utf8 v) (encode_utf8-IsByte v s l))
      (from_utf8-encode_utf8 v s)

guarded-Holds {ℓ} :
    {A : Type ℓ} (P : A → Type 0) (t : Bool) (m : String) (a : A)
    → P a
    → Holds P (ensure t m >> ok a)
guarded-Holds P true m a p = p
guarded-Holds P false m a p = tt

escape_unit_name-decodes :
    (v : Chars)
    → IsScalars v
    → Holds (λ name. from_utf8 (undo_escapes name) ≡ some v) (escape_unit_name v)
unfolding escape_unit_name literal
escape_unit_name-decodes v s = elim (Bool-cases (any is_line_code v)) [
  | inl e ↦ rw e tt
  | inr l ↦ elim (Bool-cases (is_empty v)) [
    | inl e ↦ rw (l, e) tt
    | inr n ↦ rw (escape_unit_name-total v s (l, n)) (
        guarded-Holds (Decodes v) (leb (length (escaped v)) 240) "unsafe or too long unit name"
          (escaped v) (escaped-Decodes v s (l, n)))
  ]
]

-- Two texts that differ are never escaped to one name.
pub escape_unit_name-distinct :
    (v w : Chars) {name : Bytes}
    → IsScalars v
    → IsScalars w
    → v ≢ w
    → escape_unit_name v ≡ ok name
    → escape_unit_name w ≢ ok name
escape_unit_name-distinct v w s t d e f =
    let one = Holds-ok (Decodes v) (escape_unit_name-decodes v s) e in
    let two = Holds-ok (Decodes w) (escape_unit_name-decodes w t) f in d cc
