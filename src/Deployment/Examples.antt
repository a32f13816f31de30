-- ===== src/Deployment/Examples.antt =====
-- A volume with an expansion sign in it, a quoted value, and the name of a room's unit.
use dst_server.Base.{ℕ, ap, arith, ◌≢◌, ◌≡◌, refl, ◌↔◌, [], ◌∷◌, ok, encode_utf8, encode_char}
use dst_server.Deployment.Quoting.{quote, unquote, volume_escape, volume_unescape, Chars}
use dst_server.Deployment.Quoting.RoundTrip.{IsLine, unquote-quote, volume_unescape_iff}
use dst_server.Deployment.UnitName.{escape_unit_name, escape_bytes}
use dst_server.Deployment.UnitName.Decoded.{
  escaped, escape_unit_name-distinct, escape_unit_name-total,
}

-- `/a$"\`.
abbrev path : Chars
path = 47 ∷ 97 ∷ 36 ∷ 34 ∷ 92 ∷ []

unquote-quote_example : unquote (quote path) ≡ ok path
unquote-quote_example = unquote-quote path refl

volume_unescape_iff_example :
    (volume_unescape (47 ∷ 97 ∷ 36 ∷ 36 ∷ 34 ∷ 92 ∷ []) ≡ ok path)
    ↔ ((volume_escape path ≡ 47 ∷ 97 ∷ 36 ∷ 36 ∷ 34 ∷ 92 ∷ []) × IsLine path)
volume_unescape_iff_example = volume_unescape_iff (47 ∷ 97 ∷ 36 ∷ 36 ∷ 34 ∷ 92 ∷ []) path

-- `.é`.
abbrev name : Chars
name = 46 ∷ 233 ∷ []

-- It is `\x2e\xc3\xa9`.
escape_unit_name_eq :
    escape_unit_name name ≡ ok (92 ∷ 120 ∷ 50 ∷ 101 ∷ 92 ∷ 120 ∷ 99 ∷ 51 ∷ 92 ∷ 120 ∷ 97 ∷ 57 ∷ [])
unfolding escape_unit_name encode_utf8 encode_char
escape_unit_name_eq = refl

escape_unit_name-total_example : escape_unit_name name ≡ ok (escaped name)
unfolding escape_bytes encode_utf8 encode_char
escape_unit_name-total_example = escape_unit_name-total name (refl, (refl, tt)) (refl, refl)

-- `a-1`, which is its own name, and `a/1`.
abbrev dashed : Chars
dashed = 97 ∷ 45 ∷ 49 ∷ []

abbrev slashed : Chars
slashed = 97 ∷ 47 ∷ 49 ∷ []

names_differ : dashed ≢ slashed
names_differ e = omega (arith, ap second e)
  where
    second : Chars → ℕ
    second [] = 0
    second (c ∷ []) = 0
    second (c ∷ d ∷ cs) = d

dashed_eq : escape_unit_name dashed ≡ ok dashed
unfolding escape_unit_name encode_utf8 encode_char
dashed_eq = refl

escape_unit_name-distinct_example : escape_unit_name slashed ≢ ok dashed
escape_unit_name-distinct_example =
    escape_unit_name-distinct dashed slashed (refl, (refl, (refl, tt))) (refl, (refl, (refl, tt)))
      names_differ dashed_eq
