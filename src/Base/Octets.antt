-- ===== src/Base/Octets.antt =====
-- Bytes and characters as numbers: a text is the list of its bytes, or that of its Unicode scalar
-- values where the source goes over its characters. Tests on them, and `str` as UTF-8.
use Prim.Native.Nat.{ℕ, ◌+◌, ◌-◌, ◌*◌, ◌/◌, ◌%◌}
use mathlib.Core.Path.{◌≡◌, refl}
use mathlib.Core.Logic.{◌↔◌}
use mathlib.Core.Bool.{Bool, true, false, ◌&&◌, ◌||◌}
use mathlib.Core.Option.{Option, none, some}
use mathlib.Core.List.{List, [], ◌∷◌, ◌++◌}
use native.Mathlib.Omega.{arith}
use dst_server.Base.Tests.{ltb, leb, ◌==◌, if◌then◌else◌}

abbrev pub Bytes : Type 0
Bytes = List ℕ

abbrev pub same_bytes : Bytes → Bytes → Bool
same_bytes [] [] = true
same_bytes (a ∷ as_) (b ∷ bs) = a == b && same_bytes as_ bs
same_bytes _ _ = false

pub same_bytes_iff : (s t : Bytes) → (same_bytes s t ≡ true) ↔ (s ≡ t)
same_bytes_iff [] [] = ground arith
same_bytes_iff (a ∷ s) (b ∷ t) = ground (arith, same_bytes_iff s t)
same_bytes_iff [] (b ∷ t) = ground arith
same_bytes_iff (a ∷ s) [] = ground arith

pub same_bytes_refl : (s : Bytes) → same_bytes s s ≡ true
same_bytes_refl s = (same_bytes_iff s s).1 refl

abbrev pub has_byte : ℕ → Bytes → Bool
has_byte b [] = false
has_byte b (c ∷ cs) = c == b || has_byte b cs

abbrev pub is_digit : ℕ → Bool
is_digit b = leb 48 b && leb b 57

abbrev pub is_alphabetic : ℕ → Bool
is_alphabetic b = (leb 65 b && leb b 90) || (leb 97 b && leb b 122)

abbrev pub is_alphanumeric : ℕ → Bool
is_alphanumeric b = is_digit b || is_alphabetic b

-- `char::is_control`.
abbrev pub is_control_code : ℕ → Bool
is_control_code c = ltb c 32 || (leb 127 c && leb c 159)

-- A Unicode scalar value.
abbrev pub is_scalar : ℕ → Bool
is_scalar c = ltb c 55296 || (ltb 57343 c && ltb c 1114112)

abbrev pub continuation : ℕ → Bool
continuation b = leb 128 b && ltb b 192

-- `char::encode_utf8`.
unfoldable pub encode_char : ℕ → Bytes
encode_char c =
    if ltb c 128
    then c ∷ []
    else if ltb c 2048
    then (192 + c / 64) ∷ (128 + c % 64) ∷ []
    else if ltb c 65536
    then (224 + c / 4096) ∷ (128 + c / 64 % 64) ∷ (128 + c % 64) ∷ []
    else (240 + c / 262144) ∷ (128 + c / 4096 % 64) ∷ (128 + c / 64 % 64) ∷ (128 + c % 64) ∷ []

unfoldable pub encode_utf8 : List ℕ → Bytes
encode_utf8 [] = []
encode_utf8 (c ∷ cs) = encode_char c ++ encode_utf8 cs

abbrev pub cons_char : Bool → ℕ → Option (List ℕ) → Option (List ℕ)
cons_char true c (some cs) = some (c ∷ cs)
cons_char true c none = none
cons_char false c rest = none

-- `str::from_utf8`, which takes only the shortest encoding of a scalar value.
unfoldable pub from_utf8 : Bytes → Option (List ℕ)
from_utf8 [] = some []
from_utf8 (a ∷ []) = cons_char (ltb a 128) a (some [])
from_utf8 (a ∷ b ∷ []) =
    let one = from_utf8 (b ∷ []) in
    if ltb a 128
    then cons_char true a one
    else cons_char (leb 194 a && (ltb a 224 && continuation b)) ((a - 192) * 64 + (b - 128))
        (some [])
from_utf8 (a ∷ b ∷ c ∷ []) =
    let one = from_utf8 (b ∷ c ∷ []) in
    let two = from_utf8 (c ∷ []) in
    if ltb a 128
    then cons_char true a one
    else if ltb a 224
    then cons_char (leb 194 a && continuation b) ((a - 192) * 64 + (b - 128)) two
    else (let value = (a - 224) * 4096 + (b - 128) * 64 + (c - 128) in
        cons_char
          (ltb a 240 && (continuation b && (continuation c && (leb 2048 value && is_scalar value))))
          value (some []))
from_utf8 (a ∷ b ∷ c ∷ d ∷ rest) =
    let one = from_utf8 (b ∷ c ∷ d ∷ rest) in
    let two = from_utf8 (c ∷ d ∷ rest) in
    let three = from_utf8 (d ∷ rest) in
    let four = from_utf8 rest in
    if ltb a 128
    then cons_char true a one
    else if ltb a 224
    then cons_char (leb 194 a && continuation b) ((a - 192) * 64 + (b - 128)) two
    else if ltb a 240
    then (let value = (a - 224) * 4096 + (b - 128) * 64 + (c - 128) in
        cons_char (continuation b && (continuation c && (leb 2048 value && is_scalar value))) value
          three)
    else (let value = (a - 240) * 262144 + (b - 128) * 4096 + (c - 128) * 64 + (d - 128) in
        cons_char
          (ltb a 248
            && (continuation b
                && (continuation c && (continuation d && (leb 65536 value && is_scalar value)))))
          value four)
