-- ===== src/Rpc/Values/Bounds.antt =====
-- What is read is bounded: 24 bytes of the budget pay for each value, and the nesting is bounded.
use dst_server.Base.{
  Result, err, ℕ, ◌+◌, ◌-◌, ◌*◌, ◌≤◌, max, ◌≡◌, String, Option, none, some, ok, ◌>>=◌, Holds,
  Holds-then, Holds-bind, Holds-map, inl, inr, text_eq, Bool-cases, arith, ltb,
}
use dst_server.Model.Json.{
  Value, array, object, Values, no_values, value, Entries, no_entries, entry, Numbers, insert_entry,
  before,
}
use dst_server.Model.Requests.{Answer}
use dst_server.Rpc.Values.{
  Wire, Wires, WireEntries, null_value, boolean_value, signed_value, unsigned_value, float_value,
  text_value, list_value, object_value, decimal_value, unreadable, no_wires, wire, no_wire_entries,
  wire_entry, bad_entry, wires_length, wire_entries_length, take, take_text, take_list, enter,
  distinct, read_text, read_number, read_decimal, read_kind, read_items, read_fields,
  read_value_with_budget, check_depth,
}

module _ {N : Type 0} where
  -- The values that a value is made of, and how deep they nest.
  abbrev mutual
    pub nodes : Value N → ℕ
    nodes (array vs) = 1 + nodes_in vs
    nodes (object es) = 1 + nodes_of es
    nodes _ = 1

    pub nodes_in : Values N → ℕ
    nodes_in no_values = 0
    nodes_in (value v vs) = nodes v + nodes_in vs

    pub nodes_of : Entries N → ℕ
    nodes_of no_entries = 0
    nodes_of (entry k v es) = nodes v + nodes_of es

  abbrev mutual
    pub nesting : Value N → ℕ
    nesting (array vs) = nesting_in vs
    nesting (object es) = nesting_of es
    nesting _ = 0

    pub nesting_in : Values N → ℕ
    nesting_in no_values = 0
    nesting_in (value v vs) = max (1 + nesting v) (nesting_in vs)

    pub nesting_of : Entries N → ℕ
    nesting_of no_entries = 0
    nesting_of (entry k v es) = max (1 + nesting v) (nesting_of es)

  insert-nodes :
      (k : String) (v : Value N) (es : Entries N)
      → nodes_of (insert_entry k v es) ≤ nodes v + nodes_of es
  unfolding insert_entry
  insert-nodes k v no_entries = omega arith
  insert-nodes k v (entry j w es) = ground (arith, insert-nodes k v es)

  insert-nesting :
      (m : ℕ) (k : String) (v : Value N) (es : Entries N)
      → 1 + nesting v ≤ m
      → nesting_of es ≤ m
      → nesting_of (insert_entry k v es) ≤ m
  unfolding insert_entry
  insert-nesting m k v no_entries h hs = omega arith
  insert-nesting m k v (entry j w es) h hs = elim (Bool-cases (text_eq j k)) [
    | inl e ↦ rw e (omega arith)
    | inr e ↦ elim (Bool-cases (before k j)) [
      | inl f ↦ rw (e, f) (omega arith)
      | inr f ↦ rw (e, f) (omega (arith, insert-nesting m k v es h (omega arith)))
    ]
  ]

module _ (N : Type 0) where
  take-Holds : (b n : ℕ) → Holds (λ r. r + n ≡ b) (take {N = N} b n)
  unfolding take
  take-Holds b n = ground arith

  pub take_text-Holds : (b : ℕ) (s : String) → Holds (λ r. r ≤ b) (take_text {N = N} b s)
  unfolding take_text take
  take_text-Holds b s = ground arith

  take_list-Holds : (b n k : ℕ) → Holds (λ r. r ≤ b) (take_list {N = N} b n k)
  unfolding take_list take
  take_list-Holds b n k = ground arith

  enter-Holds :
      {A : Type 0} (P : ℕ × A → Type 0) (read : ℕ → Answer N (ℕ × A)) (b d : ℕ)
      → ((c : ℕ) → c + 24 ≡ b → d ≤ 64 → Holds P (read c))
      → Holds P (enter b d read)
  unfolding enter check_depth
  enter-Holds P read b d h = elim (Bool-cases (ltb 64 d)) [
    | inl e ↦ rw e tt
    | inr e ↦
        rw e (Holds-bind _ P (take b 24) read (λ c _ p. h c p (grind (arith, e))) (take-Holds b 24))
  ]

module _ {N : Type 0} (J : Numbers N) where
  abbrev Bounded : ℕ → ℕ → ℕ × Value N → Type 0
  Bounded b d r = (r.0 + 24 * nodes r.1 ≤ b) × (d + nesting r.1 ≤ 64)

  abbrev BoundedEntries : ℕ → ℕ → Entries N → ℕ × Entries N → Type 0
  BoundedEntries b d es r =
      (r.0 + 24 * nodes_of r.1 ≤ b + 24 * nodes_of es) × (d + nesting_of r.1 ≤ 64)

  decimal-Bounded :
      (n : Result String N) (r b d : ℕ)
      → r ≤ b
      → d ≤ 64
      → Holds (Bounded (b + 24) d) (read_decimal n >>= λ v. ok (r, v))
  decimal-Bounded (err m) r b d p l = tt
  decimal-Bounded (ok n) r b d p l = (omega arith, omega arith)

  number-Bounded :
      (n : Option N) (m : String) (r b d : ℕ)
      → r ≤ b
      → d ≤ 64
      → Holds (Bounded (b + 24) d) (read_number J n m >>= λ v. ok (r, v))
  unfolding read_number
  number-Bounded none m r b d p l = tt
  number-Bounded (some n) m r b d p l = (omega arith, omega arith)

  mutual
    unfolding read_kind read_items read_fields distinct

    -- `read_kind` is called once 24 bytes are paid.
    kind-Bounded : (w : Wire) (b d : ℕ) → d ≤ 64 → Holds (Bounded (b + 24) d) (read_kind J b d w)
    kind-Bounded null_value b d l = (omega arith, omega arith)
    kind-Bounded (boolean_value t) b d l = (omega arith, omega arith)
    kind-Bounded (signed_value i) b d l = (omega arith, omega arith)
    kind-Bounded (unsigned_value m) b d l = (omega arith, omega arith)
    kind-Bounded (float_value x) b d l =
        number-Bounded (Numbers.from_f64 J x) "RPC numbers must be finite" b b d (omega arith) l
    kind-Bounded (text_value t) b d l = Holds-then _ (read_text t) _ (λ s _.
        Holds-bind _ _ (take_text b s) _ (λ r _ p. (omega arith, omega arith))
          (take_text-Holds N b s))
    kind-Bounded (decimal_value t) b d l = Holds-then _ (read_text t) _ (λ s _.
        Holds-bind _ _ (take_text b s) _ (λ r _ p. decimal-Bounded (Numbers.parse J s) r b d p l)
          (take_text-Holds N b s))
    kind-Bounded (list_value ws) b d l =
        Holds-bind _ _ (take_list b (wires_length ws) 24) _
          (λ r _ p.
            Holds-bind _ _ (read_items J r (d + 1) ws) _ (λ q _ h. (omega arith, omega arith))
              (items-Bounded ws r d l))
          (take_list-Holds N b (wires_length ws) 24)
    kind-Bounded (object_value ws) b d l =
        Holds-bind _ _ (take_list b (wire_entries_length ws) 40) _
          (λ r _ p.
            Holds-bind _ _ (take r (wire_entries_length ws * 16)) _
              (λ q _ o.
                Holds-bind _ _ (read_fields J q (d + 1) no_entries ws) _
                  (λ u _ h. (omega arith, omega arith))
                  (fields-Bounded ws no_entries q d (omega arith)))
              (take-Holds N r (wire_entries_length ws * 16)))
          (take_list-Holds N b (wire_entries_length ws) 40)
    kind-Bounded (unreadable m) b d l = tt

    -- The items of a list at depth `d`.
    items-Bounded :
        (ws : Wires) (b d : ℕ)
        → d ≤ 64
        → Holds
            (λ r. (r.0 + 24 * nodes_in r.1 ≤ b) × (d + nesting_in r.1 ≤ 64))
            (read_items J b (d + 1) ws)
    items-Bounded no_wires b d l = (omega arith, omega arith)
    items-Bounded (wire w ws) b d l =
        Holds-bind (Bounded b (d + 1)) _ (enter b (d + 1) (λ c. read_kind J c (d + 1) w)) _
          (λ r _ h.
            Holds-bind _ _ (read_items J r.0 (d + 1) ws) _ (λ q _ k. (omega arith, omega arith))
              (items-Bounded ws r.0 d l))
          (enter-Holds N (Bounded b (d + 1)) (λ c. read_kind J c (d + 1) w) b (d + 1)
            (λ c e m. rw (← e) (kind-Bounded w c (d + 1) m)))

    fields-Bounded :
        (ws : WireEntries) (es : Entries N) (b d : ℕ)
        → d + nesting_of es ≤ 64
        → Holds (BoundedEntries b d es) (read_fields J b (d + 1) es ws)
    fields-Bounded no_wire_entries es b d l = (omega arith, omega arith)
    fields-Bounded (wire_entry t w ws) es b d l = Holds-then _ (read_text t) _ (λ k _.
        Holds-bind _ _ (take_text b k) _
          (λ less _ p. Holds-then _ (distinct k es) _ (λ _ _.
            Holds-bind (Bounded less (d + 1)) _ (enter less (d + 1) (λ c. read_kind J c (d + 1) w))
              _
              (λ r _ h.
                let small : nodes_of (insert_entry k r.1 es) ≤ nodes r.1 + nodes_of es =
                  insert-nodes k r.1 es in
                let flat : nesting_of (insert_entry k r.1 es) ≤ 64 - d =
                  insert-nesting (64 - d) k r.1 es (omega arith) (omega arith) in
                Holds-map (BoundedEntries r.0 d (insert_entry k r.1 es)) (BoundedEntries b d es)
                  (read_fields J r.0 (d + 1) (insert_entry k r.1 es) ws)
                  (λ q _ o. (omega arith, omega arith))
                  (fields-Bounded ws (insert_entry k r.1 es) r.0 d (omega arith)))
              (enter-Holds N (Bounded less (d + 1)) (λ c. read_kind J c (d + 1) w) less (d + 1)
                (λ c e m. rw (← e) (kind-Bounded w c (d + 1) m)))))
          (take_text-Holds N b k))
    fields-Bounded (bad_entry t m ws) es b d l = Holds-then _ (read_text t) _ (λ k _.
        Holds-then _ (take_text b k) _ (λ less _. Holds-then _ (distinct k es) _ (λ _ _. tt)))

  -- Whatever the wire holds, a value that is read costs at least 24 bytes of the budget for each
  -- value in it, and with the depth it starts at it nests at most 64 deep.
  pub read_value-bounded :
      (w : Wire) (b d : ℕ)
      → Holds
          (λ r. (r.0 + 24 * nodes r.1 ≤ b) × (d + nesting r.1 ≤ 64))
          (read_value_with_budget J b d w)
  unfolding read_value_with_budget
  read_value-bounded w b d =
      enter-Holds N (Bounded b d) (λ c. read_kind J c d w) b d
        (λ c e m. rw (← e) (kind-Bounded w c d m))
