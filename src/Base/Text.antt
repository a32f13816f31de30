-- ===== src/Base/Text.antt =====
-- Texts, and `BTreeMap<String, A>` as the list of its entries in key order: the source iterates
-- over maps, reads them and collects them in order, and compares their key sequences.
use Prim.Native.Nat.{ℕ, zero, suc, ◌/◌, ◌%◌}
use Prim.Native.Char.{Char, code}
use Prim.Native.String.{String, ◌++◌}
use text.Mathlib.Text.{◌==◌}
use text.Mathlib.TextEquality.{eq_iff}
use mathlib.Core.Path.{◌≡◌, refl}
use mathlib.Core.Logic.{◌↔◌}
use mathlib.Core.Bool.{Bool, true, false, not, ◌&&◌, ◌||◌}
use mathlib.Core.Option.{Option, none, some}
use mathlib.Core.List.{List, [], ◌∷◌}
use native.Mathlib.Omega.{arith}
use dst_server.Base.Tests.{leb, ltb, if◌then◌else◌}

abbrev pub text_eq : String → String → Bool
text_eq s t = s == t

pub text_eq_iff : (s t : String) → (text_eq s t ≡ true) ↔ (s ≡ t)
text_eq_iff = eq_iff

infixr 65 ◌⧺◌
-- `push_str`.
abbrev pub ◌⧺◌ : String → String → String
s ⧺ t = s ++ t

abbrev pub text_is_empty : String → Bool
text_is_empty String.[] = true
text_is_empty (String.◌∷◌ c s) = false

-- `char::is_control`: the category Cc.
pub is_control : Char → Bool
is_control c = ltb (code c) 32 || (leb 127 (code c) && leb (code c) 159)

unfoldable pub any_control : String → Bool
unfolding is_control
any_control String.[] = false
any_control (String.◌∷◌ c s) = is_control c || any_control s

-- `to_string` of an unsigned number.
digit : ℕ → String
digit n =
    if leb n 0
    then "0"
    else if leb n 1
    then "1"
    else if leb n 2
    then "2"
    else if leb n 3
    then "3"
    else if leb n 4
    then "4"
    else if leb n 5
    then "5"
    else if leb n 6
    then "6"
    else if leb n 7
    then "7"
    else if leb n 8
    then "8"
    else "9"

decimal_fuel : ℕ → ℕ → String
unfolding digit
decimal_fuel zero n = digit n
decimal_fuel (suc f) n =
    let front = decimal_fuel f (n / 10) in if ltb n 10 then digit n else front ++ digit (n % 10)

unfoldable pub decimal : ℕ → String
unfolding decimal_fuel
decimal n = decimal_fuel n n

abbrev pub Map {ℓ} : Type ℓ → Type ℓ
Map A = List (String × A)

module _ {ℓ} {A : Type ℓ} where
  abbrev pub keys : Map A → List String
  keys [] = []
  keys ((k, a) ∷ m) = k ∷ keys m

  abbrev pub values : Map A → List A
  values [] = []
  values ((k, a) ∷ m) = a ∷ values m

  abbrev pub lookup : String → Map A → Option A
  lookup k [] = none
  lookup k ((j, a) ∷ m) = if text_eq j k then some a else lookup k m

-- `Iterator::eq` on texts, and equality of maps of texts.
abbrev pub same_texts : List String → List String → Bool
same_texts [] [] = true
same_texts (s ∷ ss) (t ∷ ts) = text_eq s t && same_texts ss ts
same_texts _ _ = false

abbrev pub same_map : Map String → Map String → Bool
same_map [] [] = true
same_map ((j, s) ∷ m) ((k, t) ∷ n) = text_eq j k && (text_eq s t && same_map m n)
same_map _ _ = false

-- Membership, and `BTreeSet` insertion's answer for a whole list: no text comes twice.
abbrev pub mem_text : String → List String → Bool
mem_text s [] = false
mem_text s (t ∷ ts) = text_eq t s || mem_text s ts

abbrev pub distinct_texts : List String → Bool
distinct_texts [] = true
distinct_texts (s ∷ ss) = not (mem_text s ss) && distinct_texts ss

pub same_texts_iff : (ss ts : List String) → (same_texts ss ts ≡ true) ↔ (ss ≡ ts)
same_texts_iff [] [] = ground arith
same_texts_iff (s ∷ ss) (t ∷ ts) = ground (arith, text_eq_iff s t, same_texts_iff ss ts)
same_texts_iff [] (t ∷ ts) = ground arith
same_texts_iff (s ∷ ss) [] = ground arith

pub same_texts_refl : (ss : List String) → same_texts ss ss ≡ true
same_texts_refl ss = (same_texts_iff ss ss).1 refl
