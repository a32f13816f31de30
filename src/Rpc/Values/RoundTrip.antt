-- ===== src/Rpc/Values/RoundTrip.antt =====
-- What is written of a value is read back as that value, within the same budget.
use dst_server.Base.{
  ltb, inl, inr, Bool-cases, Option-cases, arith, min, ◌/◌, ℕ, ◌+◌, ◌*◌, ◌≡◌, refl, String, true,
  false, Option, none, some, ok, ◌>>=◌, Holds, Holds-then, Holds-map, Holds-bind, ap, inl, inr,
  Option-cases, arith,
}
use dst_server.Base.Int.{ℤ}
use dst_server.Base.Float.{F64}
use dst_server.Model.Json.{
  text_bytes, Value, null, boolean, number, text, array, object, Values, no_values, value, Entries,
  no_entries, entry, Numbers, values_length, entries_length,
}
use dst_server.Model.Requests.{Answer}
use dst_server.Rpc.Values.Maps.{
  IsAfter, AreBelow, join, below-none, join-none, join_assoc, AreBelow-join, insert-below,
  contains_key-below,
}
use dst_server.Rpc.Values.{
  usize_max, float_value, decimal_value, utf8, wires_length, wire_entries_length, take, take_text,
  take_list, enter, distinct, float_of, write_float, write_unsigned, write_signed, write_value,
  write_kind, write_items, write_entries, read_number, read_kind, read_items, read_fields,
  read_value_with_budget, check_depth,
}

module _ {N : Type 0} (J : Numbers N) where
  -- What serde_json promises of the text of a number, and of `==` on numbers.
  pub record NumberLaws : Type 0 where
    pub parse-to_string : (n : N) → Numbers.parse J (Numbers.to_string J n) ≡ ok n
    pub same_number-path : (m n : N) → Numbers.same_number J m n ≡ true → m ≡ n

  -- A number that is the one its integer reading makes; all but a minus zero are.
  abbrev pub IsCanonical : N → Type 0
  IsCanonical n =
      ((i : ℤ) → Numbers.as_i64 J n ≡ some i → Numbers.of_i64 J i ≡ n)
      × ((m : ℕ) → Numbers.as_u64 J n ≡ some m → Numbers.of_u64 J m ≡ n)

  abbrev mutual
    pub IsExact : Value N → Type 0
    IsExact null = Unit
    IsExact (boolean b) = Unit
    IsExact (number n) = IsCanonical n
    IsExact (text s) = Unit
    IsExact (array vs) = AreExact vs
    IsExact (object es) = AreEntries es

    pub AreExact : Values N → Type 0
    AreExact no_values = Unit
    AreExact (value v vs) = IsExact v × AreExact vs

    pub AreEntries : Entries N → Type 0
    AreEntries no_entries = Unit
    AreEntries (entry k v es) = IsAfter k es × (IsExact v × AreEntries es)

module _ {N : Type 0} (k : ℕ) where
  -- With more in the budget, more is left.
  take-more : (b r n : ℕ) → take {N = N} b n ≡ ok r → take {N = N} (b + k) n ≡ ok (r + k)
  unfolding take
  take-more b r n e = ground arith

  take_text-more :
      (b r : ℕ) (s : String)
      → take_text {N = N} b s ≡ ok r
      → take_text {N = N} (b + k) s ≡ ok (r + k)
  unfolding take_text
  take_text-more b r s e = take-more b r (min (text_bytes s + 8) usize_max / 8 * 8) e

  take_list-more :
      (b r n i : ℕ)
      → (ltb (b / i) n ≡ false → ltb ((b + k) / i) n ≡ false)
      → take_list {N = N} b n i ≡ ok r
      → take_list {N = N} (b + k) n i ≡ ok (r + k)
  unfolding take_list
  take_list-more b r n i m e = elim (Bool-cases (ltb (b / i) n)) [
    | inl f ↦ ground (arith, e, f)
    | inr f ↦ rw (m f) (take-more b r 8 (rw f at e))
  ]

  enter-Holds :
      {A B : Type 0} (write : ℕ → Answer N (ℕ × A)) (read : ℕ → A → Answer N (ℕ × B)) (v : B)
      (b d : ℕ)
      → ((c : ℕ) → Holds (λ r. read (c + k) r.1 ≡ ok (r.0 + k, v)) (write c))
      → Holds (λ r. enter (b + k) d (λ c. read c r.1) ≡ ok (r.0 + k, v)) (enter b d write)
  unfolding enter
  enter-Holds {A = A} write read v b d h =
      let Q : ℕ × A → Type 0 = λ r. enter (b + k) d (λ c. read c r.1) ≡ ok (r.0 + k, v) in
      Holds-then Q (check_depth d) (λ _. take b 24 >>= write)
        (λ _ e. Holds-then Q (take b 24) write (λ c f. rw (e, take-more b c 24 f) (h c)))

ltb-more_24 : (b k n : ℕ) → ltb (b / 24) n ≡ false → ltb ((b + k) / 24) n ≡ false
ltb-more_24 b k n e = ground arith

ltb-more_40 : (b k n : ℕ) → ltb (b / 40) n ≡ false → ltb ((b + k) / 40) n ≡ false
ltb-more_40 b k n e = ground arith

module _ {N : Type 0} (J : Numbers N) (L : NumberLaws J) (k : ℕ) where
  float-from :
      (n : N) (x : F64) (o : Option F64) → float_of J o n ≡ some x → Numbers.from_f64 J x ≡ some n
  unfolding float_of
  float-from n x none e = ground arith
  float-from n x (some y) e = elim (Option-cases (Numbers.from_f64 J y)) [
    | inl q ↦ ground arith
    | inr (m, q) ↦ ground (arith, NumberLaws.same_number-path L m n)
  ]

  float-Holds :
      (b d : ℕ) (n : N) (x : F64)
      → float_of J (Numbers.as_f64 J n) n ≡ some x
      → read_kind J (b + k) d (float_value x) ≡ ok (b + k, number n)
  unfolding read_kind read_number
  float-Holds b d n x e = rw (float-from n x (Numbers.as_f64 J n) e)

  write_float-Holds :
      (b d : ℕ) (n : N)
      → Holds
          (λ r. read_kind J (b + k) d r.1 ≡ ok (r.0 + k, number n))
          (write_float J b n (float_of J (Numbers.as_f64 J n) n))
  unfolding write_float read_kind read_number
  write_float-Holds b d n = elim (Option-cases (float_of J (Numbers.as_f64 J n) n)) [
    | inr (x, e) ↦ rw e (float-Holds b d n x e)
    | inl e ↦ rw e (
        Holds-then (λ r. read_kind J (b + k) d r.1 ≡ ok (r.0 + k, number n))
          (take_text b (Numbers.to_string J n))
          (λ left. ok (left, decimal_value (utf8 (Numbers.to_string J n))))
          (λ left t.
            rw (take_text-more k b left (Numbers.to_string J n) t, NumberLaws.parse-to_string L n)))
  ]

  write_unsigned-Holds :
      (b d : ℕ) (n : N)
      → IsCanonical J n
      → Holds
          (λ r. read_kind J (b + k) d r.1 ≡ ok (r.0 + k, number n))
          (write_unsigned J b n (Numbers.as_u64 J n))
  unfolding write_unsigned read_kind
  write_unsigned-Holds b d n (i, u) = elim (Option-cases (Numbers.as_u64 J n)) [
    | inr (m, e) ↦ rw (e, u m e)
    | inl e ↦ rw e (write_float-Holds b d n)
  ]

  write_signed-Holds :
      (b d : ℕ) (n : N)
      → IsCanonical J n
      → Holds
          (λ r. read_kind J (b + k) d r.1 ≡ ok (r.0 + k, number n))
          (write_signed J b n (Numbers.as_i64 J n))
  unfolding write_signed read_kind
  write_signed-Holds b d n (i, u) = elim (Option-cases (Numbers.as_i64 J n)) [
    | inr (m, e) ↦ rw (e, i m e)
    | inl e ↦ rw e (write_unsigned-Holds b d n (i, u))
  ]

  mutual
    unfolding write_kind read_kind read_items read_fields take take_text take_list distinct
        values_length entries_length wires_length wire_entries_length

    kind-Holds :
        (v : Value N)
        → IsExact J v
        → (b d : ℕ) → Holds (λ r. read_kind J (b + k) d r.1 ≡ ok (r.0 + k, v)) (write_kind J b d v)
    kind-Holds null x b d = refl
    kind-Holds (boolean t) x b d = refl
    kind-Holds (number n) x b d = write_signed-Holds b d n x
    kind-Holds (text s) x b d =
        Holds-then _ (take_text b s) _ (λ c e. rw (take_text-more k b c s e))
    kind-Holds (array vs) x b d = Holds-then _ (take_list b (values_length vs) 24) _ (λ left e.
        Holds-bind _ _ (write_items J left (d + 1) vs) _
          (λ r f (l, h). rw (
            l,
            take_list-more k b left (values_length vs) 24 (ltb-more_24 b k (values_length vs)) e,
            h,
          ))
          (items-Holds vs x left (d + 1)))
    kind-Holds (object es) x b d = Holds-then _ (take_list b (entries_length es) 40) _ (λ left e.
        Holds-then _ (take left (entries_length es * 16)) _ (λ less f.
          Holds-bind _ _ (write_entries J less (d + 1) es) _
            (λ r g (l, h). rw (
              l,
              take_list-more k b left (entries_length es) 40 (ltb-more_40 b k (entries_length es))
                  e,
              take-more k left less (entries_length es * 16) f,
              h,
            ))
            (entries-Holds es no_entries x (below-none es) less (d + 1))))

    items-Holds :
        (vs : Values N)
        → AreExact J vs
        → (b d : ℕ)
        → Holds
            (λ r.
              (wires_length r.1 ≡ values_length vs)
              × (read_items J (b + k) d r.1 ≡ ok (r.0 + k, vs)))
            (write_items J b d vs)
    items-Holds no_values x b d = (refl, refl)
    items-Holds (value v vs) (x, xs) b d =
        Holds-bind _ _ (enter b d (λ c. write_kind J c d v)) _
          (λ r f h.
            Holds-bind _ _ (write_items J r.0 d vs) _ (λ q g (l, t). (ap (λ n. 1 + n) l, rw (h, t)))
              (items-Holds vs xs r.0 d))
          (enter-Holds k (λ c. write_kind J c d v) (λ c w. read_kind J c d w) v b d
            (λ c. kind-Holds v x c d))

    entries-Holds :
        (es acc : Entries N)
        → AreEntries J es
        → AreBelow acc es
        → (b d : ℕ)
        → Holds
            (λ r.
              (wire_entries_length r.1 ≡ entries_length es)
              × (read_fields J (b + k) d acc r.1 ≡ ok (r.0 + k, join acc es)))
            (write_entries J b d es)
    entries-Holds no_entries acc x l b d = (refl, rw (join-none acc))
    entries-Holds (entry key v es) acc (a, (x, xs)) (l, ls) b d =
        Holds-then _ (take_text b key) _ (λ less e.
          Holds-bind _ _ (enter less d (λ c. write_kind J c d v)) _
            (λ r f h.
              Holds-bind _ _ (write_entries J r.0 d es) _
                (λ q g (n, t). (
                  ap (λ m. 1 + m) n,
                  rw (
                    take_text-more k b less key e,
                    contains_key-below key acc l,
                    h,
                    insert-below key v acc l,
                    t,
                    join_assoc acc key v es,
                  ),
                ))
                (entries-Holds es (join acc (entry key v no_entries)) xs
                  (AreBelow-join acc key v es ls a) r.0 d))
            (enter-Holds k (λ c. write_kind J c d v) (λ c w. read_kind J c d w) v less d
              (λ c. kind-Holds v x c d)))

  -- A value with exact numbers that is written within a budget and at a depth is read back within
  -- any budget that is as large, with as much more of it left.
  pub read_value-write_value :
      (b d : ℕ) (v : Value N)
      → IsExact J v
      → Holds (λ r. read_value_with_budget J (b + k) d r.1 ≡ ok (r.0 + k, v)) (write_value J b d v)
  unfolding read_value_with_budget write_value
  read_value-write_value b d v x =
      enter-Holds k (λ c. write_kind J c d v) (λ c w. read_kind J c d w) v b d
        (λ c. kind-Holds v x c d)

add_zero : (n : ℕ) → n + 0 ≡ n
add_zero n = omega arith

module _ {N : Type 0} (J : Numbers N) (L : NumberLaws J) where
  -- The same within the budget itself.
  pub entries-same :
      (es : Entries N)
      → AreEntries J es
      → (b d : ℕ)
      → Holds
          (λ r.
            (wire_entries_length r.1 ≡ entries_length es)
            × (read_fields J b d no_entries r.1 ≡ ok (r.0, es)))
          (write_entries J b d es)
  entries-same es x b d =
      Holds-map _ _ (write_entries J b d es) (λ r _ (n, t). (n, rw (add_zero b, add_zero r.0) at t))
        (entries-Holds J L 0 es no_entries x (below-none es) b d)

  pub value-same :
      (b d : ℕ) (v : Value N)
      → IsExact J v
      → Holds (λ r. read_value_with_budget J b d r.1 ≡ ok (r.0, v)) (write_value J b d v)
  value-same b d v x =
      Holds-map _ _ (write_value J b d v) (λ r _ t. rw (add_zero b, add_zero r.0) at t)
        (read_value-write_value J L 0 b d v x)
