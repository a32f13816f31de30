-- ===== src/Model/Json.antt =====
-- `serde_json::Value` as crates/dst-server/src/model.rs and crates/dst-server/src/rpc/codec.rs use
-- it. An object is a map in the order of its keys, the order of `BTreeMap`.
use Prim.Native.Char.{code}
use dst_server.Base.{
  Result, ℕ, String, Bool, true, false, ◌&&◌, ◌||◌, Option, ltb, ◌==◌, if◌then◌else◌, text_eq, ◌+◌,
}
use dst_server.Base.Int.{ℤ}
use dst_server.Base.Float.{F64}

mutual
  pub data Value (N : Type 0) : Type 0 where
    null : Value N
    boolean : Bool → Value N
    number : N → Value N
    text : String → Value N
    array : Values N → Value N
    object : Entries N → Value N

  pub data Values (N : Type 0) : Type 0 where
    no_values : Values N
    value : Value N → Values N → Values N

  pub data Entries (N : Type 0) : Type 0 where
    no_entries : Entries N
    entry : String → Value N → Entries N → Entries N

-- What is taken from `serde_json::Number`, which keeps the text of a number.
pub record Numbers (N : Type 0) : Type 0 where
  pub as_i64 : N → Option ℤ
  pub as_u64 : N → Option ℕ
  pub as_f64 : N → Option F64
  pub of_i64 : ℤ → N
  pub of_u64 : ℕ → N
  pub from_f64 : F64 → Option N
  pub same_number : N → N → Bool
  pub to_string : N → String
  pub parse : String → Result String N

-- The order of `str`: that of the codes of the characters.
unfoldable pub before : String → String → Bool
before String.[] String.[] = false
before String.[] (String.◌∷◌ d t) = true
before (String.◌∷◌ c s) String.[] = false
before (String.◌∷◌ c s) (String.◌∷◌ d t) = ltb (code c) (code d) || (code c == code d && before s t)

-- `str::len`: the bytes of the characters.
abbrev pub char_bytes : ℕ → ℕ
char_bytes c = if ltb c 128 then 1 else if ltb c 2048 then 2 else if ltb c 65536 then 3 else 4

unfoldable pub text_bytes : String → ℕ
text_bytes String.[] = 0
text_bytes (String.◌∷◌ c s) = char_bytes (code c) + text_bytes s

module _ {N : Type 0} where
  unfoldable pub values_length : Values N → ℕ
  values_length no_values = 0
  values_length (value v vs) = 1 + values_length vs

  unfoldable pub entries_length : Entries N → ℕ
  entries_length no_entries = 0
  entries_length (entry k v es) = 1 + entries_length es

  -- `Map::contains_key` and `Map::insert`.
  unfoldable pub contains_key : String → Entries N → Bool
  contains_key k no_entries = false
  contains_key k (entry j v es) = text_eq j k || contains_key k es

  unfoldable pub insert_entry : String → Value N → Entries N → Entries N
  insert_entry k v no_entries = entry k v no_entries
  insert_entry k v (entry j w es) =
      let rest = insert_entry k v es in
      if text_eq j k
      then entry k v es
      else if before k j
      then entry k v (entry j w es)
      else entry j w rest
