-- ===== src/Rpc/Values/Cost.antt =====
-- What writing a value costs, and that a value within the budget and the nesting is written.
use dst_server.Base.{
  ℕ, ◌+◌, ◌-◌, ◌*◌, ◌/◌, ◌≤◌, min, ◌≡◌, refl, String, false, Option, none, some, ok, arith, ltb,
}
use dst_server.Base.Int.{ℤ}
use dst_server.Base.Float.{F64}
use dst_server.Model.Json.{
  Value, null, boolean, number, text, array, object, Values, no_values, value, Entries, no_entries,
  entry, Numbers, text_bytes, values_length, entries_length,
}
use dst_server.Model.Requests.{Answer}
use dst_server.Rpc.Values.{
  Wire, usize_max, take, take_text, take_list, enter, check_depth, float_of, write_float,
  write_unsigned, write_signed, write_value, write_kind, write_items, write_entries, decimal_value,
  utf8, float_value, signed_value, unsigned_value, null_value, boolean_value, text_value,
  list_value, object_value, wire, wire_entry, no_wires, no_wire_entries,
}
use dst_server.Rpc.Values.Bounds.{nesting, nesting_in, nesting_of}

-- A text takes whole words, of 8 bytes.
abbrev pub padded : String → ℕ
padded s = min (text_bytes s + 8) usize_max / 8 * 8

module _ {N : Type 0} (J : Numbers N) where
  -- Only a number that is neither an integer nor a double takes a text.
  abbrev pub float_cost : N → Option F64 → ℕ
  float_cost n (some x) = 0
  float_cost n none = padded (Numbers.to_string J n)

  abbrev pub unsigned_cost : N → Option ℕ → ℕ
  unsigned_cost n (some m) = 0
  unsigned_cost n none = float_cost n (float_of J (Numbers.as_f64 J n) n)

  abbrev pub signed_cost : N → Option ℤ → ℕ
  signed_cost n (some i) = 0
  signed_cost n none = unsigned_cost n (Numbers.as_u64 J n)

  abbrev mutual
    pub kind_cost : Value N → ℕ
    kind_cost null = 0
    kind_cost (boolean b) = 0
    kind_cost (number n) = signed_cost n (Numbers.as_i64 J n)
    kind_cost (text s) = padded s
    kind_cost (array vs) = 8 + items_cost vs
    kind_cost (object es) = 8 + (entries_length es * 16 + entries_cost es)

    pub items_cost : Values N → ℕ
    items_cost no_values = 0
    items_cost (value v vs) = 24 + kind_cost v + items_cost vs

    pub entries_cost : Entries N → ℕ
    entries_cost no_entries = 0
    entries_cost (entry k v es) = padded k + (24 + kind_cost v + entries_cost es)

  abbrev pub cost : Value N → ℕ
  cost v = 24 + kind_cost v

module _ (N : Type 0) where
  take-ok : (b n r : ℕ) → b ≡ n + r → take {N = N} b n ≡ ok r
  unfolding take
  take-ok b n r e = ground arith

  take_text-ok : (b : ℕ) (s : String) (r : ℕ) → b ≡ padded s + r → take_text {N = N} b s ≡ ok r
  unfolding take_text
  take_text-ok b s r e = take-ok b (padded s) r e

  take_list-ok_24 : (b n r : ℕ) → b ≡ 8 + r → n * 24 ≤ r → take_list {N = N} b n 24 ≡ ok r
  unfolding take_list take
  take_list-ok_24 b n r e l = ground arith

  take_list-ok_40 : (b n r : ℕ) → b ≡ 8 + r → n * 40 ≤ r → take_list {N = N} b n 40 ≡ ok r
  unfolding take_list take
  take_list-ok_40 b n r e l = ground arith

  enter-ok :
      {A : Type 0} (b c d r : ℕ) (write : ℕ → Answer N (ℕ × A)) (w : A)
      → b ≡ 24 + c + r
      → d ≤ 64
      → write (c + r) ≡ ok (r, w)
      → enter b d write ≡ ok (r, w)
  unfolding enter check_depth
  enter-ok b c d r write w s l e =
      let shallow : ltb 64 d ≡ false = ground arith in
      rw (shallow, take-ok b 24 (c + r) (omega arith), e)

module _ {N : Type 0} (J : Numbers N) where
  items_cost-length : (vs : Values N) → values_length vs * 24 ≤ items_cost J vs
  unfolding values_length
  items_cost-length no_values = omega arith
  items_cost-length (value v vs) = omega (arith, items_cost-length vs)

  padded-word : (s : String) → 8 ≤ padded s
  padded-word s = omega arith

  entries_cost-length : (es : Entries N) → entries_length es * 32 ≤ entries_cost J es
  unfolding entries_length
  entries_cost-length no_entries = omega arith
  entries_cost-length (entry k v es) = omega (arith, padded-word k, entries_cost-length es)

  -- A writing that succeeds with `r` left.
  Written : {A : Type 0} → ℕ → Answer N (ℕ × A) → Type 0
  Written {A} r m = (w : A) × (m ≡ ok (r, w))

  left_over : {A : Type 0} (w : A) {b r : ℕ} → b ≡ r → Written r (ok (b, w))
  unfolding Written
  left_over w e = (w, rw e)

  float-Written :
      (n : N) (r : ℕ) (o : Option F64) (b : ℕ)
      → b ≡ float_cost J n o + r
      → Written r (write_float J b n o)
  unfolding write_float Written
  float-Written n r (some x) b e = left_over (float_value x) (omega arith)
  float-Written n r none b e = (
    decimal_value (utf8 (Numbers.to_string J n)),
    rw (take_text-ok N b (Numbers.to_string J n) r e),
  )

  unsigned-Written :
      (n : N) (r : ℕ) (o : Option ℕ) (b : ℕ)
      → b ≡ unsigned_cost J n o + r
      → Written r (write_unsigned J b n o)
  unfolding write_unsigned Written
  unsigned-Written n r (some m) b e = left_over (unsigned_value m) (omega arith)
  unsigned-Written n r none b e = float-Written n r (float_of J (Numbers.as_f64 J n) n) b e

  signed-Written :
      (n : N) (r : ℕ) (o : Option ℤ) (b : ℕ)
      → b ≡ signed_cost J n o + r
      → Written r (write_signed J b n o)
  unfolding write_signed Written
  signed-Written n r (some i) b e = left_over (signed_value i) (omega arith)
  signed-Written n r none b e = unsigned-Written n r (Numbers.as_u64 J n) b e

  mutual
    unfolding write_kind write_items write_entries Written

    kind-Written :
        (v : Value N) (r b d : ℕ)
        → b ≡ kind_cost J v + r
        → d + nesting v ≤ 64
        → Written r (write_kind J b d v)
    kind-Written null r b d e l = left_over null_value (omega arith)
    kind-Written (boolean t) r b d e l = left_over (boolean_value t) (omega arith)
    kind-Written (number n) r b d e l = signed-Written n r (Numbers.as_i64 J n) b e
    kind-Written (text s) r b d e l = (text_value (utf8 s), rw (take_text-ok N b s r e))
    kind-Written (array vs) r b d e l =
        let (ws, f) = items-Written vs r (items_cost J vs + r) d refl l in
        let len = items_cost-length vs in
        (
          list_value ws,
          rw (
            take_list-ok_24 N b (values_length vs) (items_cost J vs + r) (omega arith)
                (omega (arith, len)),
            f,
          ),
        )
    kind-Written (object es) r b d e l =
        let (ws, f) = entries-Written es r (entries_cost J es + r) d refl l in
        let len = entries_cost-length es in
        let n = entries_length es in
        (
          object_value ws,
          rw (
            take_list-ok_40 N b n (n * 16 + (entries_cost J es + r)) (omega arith)
                (omega (arith, len)),
            take-ok N (n * 16 + (entries_cost J es + r)) (n * 16) (entries_cost J es + r) refl,
            f,
          ),
        )

    items-Written :
        (vs : Values N) (r b d : ℕ)
        → b ≡ items_cost J vs + r
        → d + nesting_in vs ≤ 64
        → Written r (write_items J b (d + 1) vs)
    items-Written no_values r b d e l = left_over no_wires (omega arith)
    items-Written (value v vs) r b d e l =
        let (w, f) =
          kind-Written v (items_cost J vs + r) (kind_cost J v + (items_cost J vs + r)) (d + 1) refl
            (omega arith) in
        let g =
          enter-ok N b (kind_cost J v) (d + 1) (items_cost J vs + r) (λ c. write_kind J c (d + 1) v)
            w (omega arith) (omega arith) f in
        let (ws, h) = items-Written vs r (items_cost J vs + r) d refl (omega arith) in
        (wire w ws, rw (g, h))

    entries-Written :
        (es : Entries N) (r b d : ℕ)
        → b ≡ entries_cost J es + r
        → d + nesting_of es ≤ 64
        → Written r (write_entries J b (d + 1) es)
    entries-Written no_entries r b d e l = left_over no_wire_entries (omega arith)
    entries-Written (entry k v es) r b d e l =
        let left = entries_cost J es + r in
        let (w, f) = kind-Written v left (kind_cost J v + left) (d + 1) refl (omega arith) in
        let g =
          enter-ok N (24 + kind_cost J v + left) (kind_cost J v) (d + 1) left
            (λ c. write_kind J c (d + 1) v) w refl (omega arith) f in
        let (ws, h) = entries-Written es r left d refl (omega arith) in
        (
          wire_entry (utf8 k) w ws,
          rw (take_text-ok N b k (24 + kind_cost J v + left) (omega arith), g, h),
        )

  -- A value is written when its cost is within the budget and it nests at most 64 deep.
  pub write_value-total :
      (b d : ℕ) (v : Value N)
      → cost J v ≤ b
      → d + nesting v ≤ 64
      → (w : Wire) × (write_value J b d v ≡ ok (b - cost J v, w))
  unfolding write_value Written
  write_value-total b d v c l =
      let r = b - cost J v in
      let (w, f) = kind-Written v r (kind_cost J v + r) d refl l in
      (
        w,
        enter-ok N b (kind_cost J v) d r (λ c. write_kind J c d v) w (omega arith) (omega arith) f,
      )
