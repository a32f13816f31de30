-- ===== src/Rpc/Values.antt =====
-- Values on the wire: `struct Value` of crates/dst-server/schema/room.capnp, and how
-- crates/dst-server/src/rpc/codec.rs writes and reads it within a budget of bytes and a nesting of
-- 64. What capnp reports of a message is data here: a text or a value that cannot be read carries
-- the report. A list's length, which the budget bounds by its bytes / 24, is not cut to 32 bits.
pub mod Maps
pub mod RoundTrip
pub mod Bounds
pub mod Cost
use dst_server.Base.{
  ℕ, ◌+◌, ◌-◌, ◌*◌, ◌/◌, min, String, Bool, true, false, List, [], ◌∷◌, Option, none, some, Result,
  ok, err, ◌>>=◌, ◌>>◌, leb, ltb, ◌&&◌, not, if◌then◌else◌,
}
use dst_server.Base.Int.{ℤ}
use dst_server.Base.Float.{F64}
use dst_server.Model.Json.{
  Value, null, boolean, number, text, array, object, Values, no_values, value, Entries, no_entries,
  entry, Numbers, text_bytes, values_length, entries_length, contains_key, insert_entry,
}
use dst_server.Model.Requests.{ErrorCode, overflow, invalid, Answer, new_error, Error}

pub data WireText : Type 0 where
  utf8 : String → WireText
  bad_text : String → WireText

mutual
  pub data Wire : Type 0 where
    null_value : Wire
    boolean_value : Bool → Wire
    signed_value : ℤ → Wire
    unsigned_value : ℕ → Wire
    float_value : F64 → Wire
    text_value : WireText → Wire
    list_value : Wires → Wire
    object_value : WireEntries → Wire
    decimal_value : WireText → Wire
    unreadable : String → Wire

  pub data Wires : Type 0 where
    no_wires : Wires
    wire : Wire → Wires → Wires

  pub data WireEntries : Type 0 where
    no_wire_entries : WireEntries
    wire_entry : WireText → Wire → WireEntries → WireEntries
    bad_entry : WireText → String → WireEntries → WireEntries

unfoldable pub wires_length : Wires → ℕ
wires_length no_wires = 0
wires_length (wire w ws) = 1 + wires_length ws

unfoldable pub wire_entries_length : WireEntries → ℕ
wire_entries_length no_wire_entries = 0
wire_entries_length (wire_entry k w es) = 1 + wire_entries_length es
wire_entries_length (bad_entry k m es) = 1 + wire_entries_length es

abbrev pub max_depth : ℕ
max_depth = 64

abbrev pub usize_max : ℕ
usize_max = 18446744073709551615

module _ {N : Type 0} where
  abbrev pub read_text : WireText → Answer N String
  read_text (utf8 s) = ok s
  read_text (bad_text m) = err (new_error invalid m)

  -- The budget that is left.
  unfoldable pub take : ℕ → ℕ → Answer N ℕ
  take budget bytes =
      if leb bytes budget
      then ok (budget - bytes)
      else err (new_error overflow "RPC value exceeds its size limit")

  -- `& !7` drops what is past the last word.
  unfoldable pub take_text : ℕ → String → Answer N ℕ
  unfolding take
  take_text budget s = take budget (min (text_bytes s + 8) usize_max / 8 * 8)

  unfoldable pub take_list : ℕ → ℕ → ℕ → Answer N ℕ
  unfolding take
  take_list budget length item_bytes =
      if ltb (budget / item_bytes) length
      then err (new_error overflow "RPC list exceeds its size limit")
      else take budget 8

  unfoldable pub check_depth : ℕ → Answer N (Unit {0})
  check_depth depth =
      if ltb max_depth depth
      then err (new_error overflow "RPC value exceeds 64 nesting levels")
      else ok tt

  -- How both a value's writing and its reading start.
  unfoldable pub enter : {A : Type 0} → ℕ → ℕ → (ℕ → Answer N A) → Answer N A
  unfolding check_depth take
  enter budget depth rest = do check_depth depth; left ← take budget 24; rest left

  unfoldable pub distinct : String → Entries N → Answer N (Unit {0})
  distinct k es =
      if contains_key k es then err (new_error invalid "duplicate RPC object key") else ok tt

  abbrev pub read_decimal : Result String N → Answer N (Value N)
  read_decimal (ok n) = ok (number n)
  read_decimal (err m) = err (new_error invalid m)

module _ {N : Type 0} (J : Numbers N) where
  -- A double that is the same number.
  unfoldable pub float_of : Option F64 → N → Option F64
  float_of none n = none
  float_of (some x) n = elim (Numbers.from_f64 J x) [
    | none ↦ none
    | some m ↦ if Numbers.same_number J m n then some x else none
  ]

  unfoldable pub write_float : ℕ → N → Option F64 → Answer N (ℕ × Wire)
  unfolding take_text
  write_float budget n (some x) = ok (budget, float_value x)
  write_float budget n none = do
    let shown = Numbers.to_string J n
    left ← take_text budget shown
    ok (left, decimal_value (utf8 shown))

  unfoldable pub write_unsigned : ℕ → N → Option ℕ → Answer N (ℕ × Wire)
  unfolding write_float float_of
  write_unsigned budget n (some m) = ok (budget, unsigned_value m)
  write_unsigned budget n none = write_float budget n (float_of (Numbers.as_f64 J n) n)

  unfoldable pub write_signed : ℕ → N → Option ℤ → Answer N (ℕ × Wire)
  unfolding write_unsigned
  write_signed budget n (some i) = ok (budget, signed_value i)
  write_signed budget n none = write_unsigned budget n (Numbers.as_u64 J n)

  unfoldable mutual
    unfolding values_length entries_length write_signed take take_text take_list enter

    pub write_kind : ℕ → ℕ → Value N → Answer N (ℕ × Wire)
    write_kind budget depth null = ok (budget, null_value)
    write_kind budget depth (boolean b) = ok (budget, boolean_value b)
    write_kind budget depth (number n) = write_signed budget n (Numbers.as_i64 J n)
    write_kind budget depth (text s) = do left ← take_text budget s; ok (left, text_value (utf8 s))
    write_kind budget depth (array vs) = do
      left ← take_list budget (values_length vs) 24
      (rest, ws) ← write_items left (depth + 1) vs
      ok (rest, list_value ws)
    write_kind budget depth (object es) = do
      left ← take_list budget (entries_length es) 40
      less ← take left (entries_length es * 16)
      (rest, ws) ← write_entries less (depth + 1) es
      ok (rest, object_value ws)

    pub write_items : ℕ → ℕ → Values N → Answer N (ℕ × Wires)
    write_items budget depth no_values = ok (budget, no_wires)
    write_items budget depth (value v vs) = do
      (left, w) ← enter budget depth (λ b. write_kind b depth v)
      (rest, ws) ← write_items left depth vs
      ok (rest, wire w ws)

    pub write_entries : ℕ → ℕ → Entries N → Answer N (ℕ × WireEntries)
    write_entries budget depth no_entries = ok (budget, no_wire_entries)
    write_entries budget depth (entry k v es) = do
      less ← take_text budget k
      (left, w) ← enter less depth (λ b. write_kind b depth v)
      (rest, ws) ← write_entries left depth es
      ok (rest, wire_entry (utf8 k) w ws)

  unfoldable pub write_value : ℕ → ℕ → Value N → Answer N (ℕ × Wire)
  unfolding write_kind enter
  write_value budget depth v = enter budget depth (λ b. write_kind b depth v)

  unfoldable pub read_number : Option N → String → Answer N (Value N)
  read_number (some n) m = ok (number n)
  read_number none m = err (new_error invalid m)

  unfoldable mutual
    unfolding wires_length wire_entries_length read_number distinct insert_entry take take_text
        take_list enter

    pub read_kind : ℕ → ℕ → Wire → Answer N (ℕ × Value N)
    read_kind budget depth null_value = ok (budget, null)
    read_kind budget depth (boolean_value b) = ok (budget, boolean b)
    read_kind budget depth (signed_value i) = ok (budget, number (Numbers.of_i64 J i))
    read_kind budget depth (unsigned_value m) = ok (budget, number (Numbers.of_u64 J m))
    read_kind budget depth (float_value x) = do
      v ← read_number (Numbers.from_f64 J x) "RPC numbers must be finite"
      ok (budget, v)
    read_kind budget depth (text_value t) = do
      s ← read_text t
      left ← take_text budget s
      ok (left, text s)
    read_kind budget depth (decimal_value t) = do
      s ← read_text t
      left ← take_text budget s
      v ← read_decimal (Numbers.parse J s)
      ok (left, v)
    read_kind budget depth (list_value ws) = do
      left ← take_list budget (wires_length ws) 24
      (rest, vs) ← read_items left (depth + 1) ws
      ok (rest, array vs)
    read_kind budget depth (object_value ws) = do
      left ← take_list budget (wire_entries_length ws) 40
      less ← take left (wire_entries_length ws * 16)
      (rest, es) ← read_fields less (depth + 1) no_entries ws
      ok (rest, object es)
    read_kind budget depth (unreadable m) = err (new_error invalid m)

    pub read_items : ℕ → ℕ → Wires → Answer N (ℕ × Values N)
    read_items budget depth no_wires = ok (budget, no_values)
    read_items budget depth (wire w ws) = do
      (left, v) ← enter budget depth (λ b. read_kind b depth w)
      (rest, vs) ← read_items left depth ws
      ok (rest, value v vs)

    -- The map so far is an argument.
    pub read_fields : ℕ → ℕ → Entries N → WireEntries → Answer N (ℕ × Entries N)
    read_fields budget depth es no_wire_entries = ok (budget, es)
    read_fields budget depth es (wire_entry t w ws) = do
      k ← read_text t
      less ← take_text budget k
      distinct k es
      (left, v) ← enter less depth (λ b. read_kind b depth w)
      read_fields left depth (insert_entry k v es) ws
    read_fields budget depth es (bad_entry t m ws) = do
      k ← read_text t
      less ← take_text budget k
      distinct k es
      err (new_error invalid m)

  unfoldable pub read_value_with_budget : ℕ → ℕ → Wire → Answer N (ℕ × Value N)
  unfolding read_kind enter
  read_value_with_budget budget depth w = enter budget depth (λ b. read_kind b depth w)
