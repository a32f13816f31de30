-- ===== src/Base/Utf8.antt =====
-- What a text is encoded as decodes to the text.
use Prim.Native.Nat.{ℕ, ◌+◌, ◌-◌, ◌*◌, ◌/◌, ◌%◌, ◌≤◌, ◌<◌}
use mathlib.Core.Path.{◌≡◌, refl}
use mathlib.Core.Logic.{inl, inr}
use mathlib.Core.Bool.{true}
use mathlib.Core.Option.{some}
use mathlib.Core.List.{List, [], ◌∷◌, ◌++◌}
use native.Mathlib.Omega.{arith}
use dst_server.Base.Tests.{ltb, Bool-cases}
use dst_server.Base.Lists.{All}
use dst_server.Base.Octets.{Bytes, is_scalar, encode_char, encode_utf8, cons_char, from_utf8}

one_byte :
    (c : ℕ) (rest : Bytes) → c < 128 → from_utf8 (c ∷ rest) ≡ cons_char true c (from_utf8 rest)
unfolding from_utf8
one_byte c [] h = ground arith
one_byte c (a ∷ []) h = ground arith
one_byte c (a ∷ b ∷ []) h = ground arith
one_byte c (a ∷ b ∷ d ∷ rest) h = ground arith

two_bytes :
    (a b v : ℕ) (rest : Bytes)
    → 194 ≤ a
    → a < 224
    → 128 ≤ b
    → b < 192
    → (a - 192) * 64 + (b - 128) ≡ v
    → from_utf8 (a ∷ b ∷ rest) ≡ cons_char true v (from_utf8 rest)
unfolding from_utf8
two_bytes a b v [] h i j k e = ground arith
two_bytes a b v (c ∷ []) h i j k e = ground arith
two_bytes a b v (c ∷ d ∷ rest) h i j k e = ground arith

three_bytes :
    (a b c v : ℕ) (rest : Bytes)
    → 224 ≤ a
    → a < 240
    → 128 ≤ b
    → b < 192
    → 128 ≤ c
    → c < 192
    → (a - 224) * 4096 + (b - 128) * 64 + (c - 128) ≡ v
    → 2048 ≤ v
    → is_scalar v ≡ true
    → from_utf8 (a ∷ b ∷ c ∷ rest) ≡ cons_char true v (from_utf8 rest)
unfolding from_utf8
three_bytes a b c v [] h i j k l m e n s = ground arith
three_bytes a b c v (d ∷ rest) h i j k l m e n s = ground arith

four_bytes :
    (a b c d v : ℕ) (rest : Bytes)
    → 240 ≤ a
    → a < 248
    → 128 ≤ b
    → b < 192
    → 128 ≤ c
    → c < 192
    → 128 ≤ d
    → d < 192
    → (a - 240) * 262144 + (b - 128) * 4096 + (c - 128) * 64 + (d - 128) ≡ v
    → 65536 ≤ v
    → is_scalar v ≡ true
    → from_utf8 (a ∷ b ∷ c ∷ d ∷ rest) ≡ cons_char true v (from_utf8 rest)
unfolding from_utf8
four_bytes a b c d v rest h i j k l m n o e p s = ground arith

pub from_utf8-encode_char :
    (c : ℕ) (rest : Bytes)
    → is_scalar c ≡ true
    → from_utf8 (encode_char c ++ rest) ≡ cons_char true c (from_utf8 rest)
unfolding encode_char
from_utf8-encode_char c rest s = elim (Bool-cases (ltb c 128)) [
  | inl a ↦ rw a (one_byte c rest (ground arith))
  | inr a ↦
      let low : 128 ≤ c = ground arith in
      elim (Bool-cases (ltb c 2048)) [
        | inl b ↦
            let high : c < 2048 = ground arith in
            rw (a, b)
              (two_bytes (192 + c / 64) (128 + c % 64) c rest (omega arith) (omega arith)
                (omega arith) (omega arith) (omega arith))
        | inr b ↦
            let more : 2048 ≤ c = ground arith in
            elim (Bool-cases (ltb c 65536)) [
              | inl d ↦
                  let high : c < 65536 = ground arith in
                  rw (a, b, d)
                    (three_bytes (224 + c / 4096) (128 + c / 64 % 64) (128 + c % 64) c rest
                      (omega arith) (omega arith) (omega arith) (omega arith) (omega arith)
                      (omega arith) (omega arith) more s)
              | inr d ↦
                  let most : 65536 ≤ c = ground arith in
                  let high : c < 1114112 = ground arith in
                  rw (a, b, d)
                    (four_bytes (240 + c / 262144) (128 + c / 4096 % 64) (128 + c / 64 % 64)
                      (128 + c % 64) c rest (omega arith) (omega arith) (omega arith) (omega arith)
                      (omega arith) (omega arith) (omega arith) (omega arith) (omega arith) most s)
            ]
      ]
]

pub from_utf8-encode_utf8 :
    (cs : List ℕ) → All (λ c. is_scalar c ≡ true) cs → from_utf8 (encode_utf8 cs) ≡ some cs
unfolding encode_utf8
from_utf8-encode_utf8 [] h = unfold from_utf8 in refl
from_utf8-encode_utf8 (c ∷ cs) h =
    rw (from_utf8-encode_char c (encode_utf8 cs) h.0, from_utf8-encode_utf8 cs h.1) refl
