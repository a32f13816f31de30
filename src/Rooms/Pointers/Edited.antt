-- ===== src/Rooms/Pointers/Edited.antt =====
-- After an edit that sets a value, the pointer leads to the value.
use dst_server.Base.{
  ℕ, zero, suc, ◌<◌, String, false, not, ◌&&◌, ◌||◌, List, [], ◌∷◌, some, ok, ◌>>◌, ◌≡◌, refl,
  ensure, text_eq, text_eq_iff, text_is_empty, ltb, Holds, Holds-then, Holds-ok, Holds-bind,
  Holds-map, Bool-cases, Option-cases, inl, inr, arith,
}
use dst_server.Model.Json.{
  Value, null, boolean, number, text, array, object, Values, no_values, value, Entries, no_entries,
  entry, values_length, insert_entry,
}
use dst_server.Rooms.Pointers.{
  get_entry, set_entry, get_item, set_item, pointer_index, pointer_item, set_pointer_item,
  make_field, edit_last, edit_parts, edit_pointer_parts, read_digits, all_digits, starts_zero,
  is_permission, get_parts, or_else,
}

-- What the tests of an index leave to the last one.
last_test :
    (part : String) (n : ℕ)
    → Holds
        (λ i. i < n)
        (ensure (ltb (read_digits 0 part) n) "JSON Pointer array index is out of range"
          >> ok (read_digits 0 part))
last_test part n = elim (Bool-cases (ltb (read_digits 0 part) n)) [
  | inl e ↦ rw e (grind (arith, e))
  | inr e ↦ rw e tt
]

pointer_index-bounded : (part : String) (n : ℕ) → Holds (λ i. i < n) (pointer_index part n)
unfolding pointer_index
pointer_index-bounded part n =
    Holds-then _
      (ensure
        (not (text_is_empty part)
          && (all_digits part && (text_eq part "0" || not (starts_zero part))))
        "invalid JSON Pointer array index")
      _
      (λ _ _.
        Holds-then _
          (ensure (ltb (read_digits 0 part) 18446744073709551616)
            "invalid JSON Pointer array index")
          _ (λ _ _. last_test part n))

-- The last part of a pointer is not the place behind the end of an array.
abbrev pub IsPlain : String → List String → Type 0
IsPlain part [] = text_eq part "-" ≡ false
IsPlain part (next ∷ parts) = IsPlain next parts

module _ {N : Type 0} where
  get-insert :
      (k : String) (v : Value N) (es : Entries N) → get_entry k (insert_entry k v es) ≡ some v
  unfolding get_entry insert_entry
  get-insert k v no_entries = ground (arith, text_eq_iff k k)
  get-insert k v (entry j w es) =
      ground (arith, text_eq_iff k k, text_eq_iff j k, get-insert k v es)

  get-set :
      (k : String) (v : Value N) (es : Entries N)
      → (w : Value N) → get_entry k es ≡ some w
      → get_entry k (set_entry k v es) ≡ some v
  unfolding get_entry set_entry
  get-set k v no_entries w e = ground arith
  get-set k v (entry j u es) w e = ground (arith, text_eq_iff j k, get-set k v es w)

  item-set :
      (i : ℕ) (v : Value N) (vs : Values N)
      → i < values_length vs
      → get_item i (set_item i v vs) ≡ some v
  unfolding get_item set_item values_length
  item-set i v no_values l = ground arith
  item-set zero v (value u vs) l = refl
  item-set (suc i) v (value u vs) l = item-set i v vs (omega arith)

  length-set :
      (i : ℕ) (v : Value N) (vs : Values N) → values_length (set_item i v vs) ≡ values_length vs
  unfolding set_item values_length
  length-set i v no_values = refl
  length-set zero v (value u vs) = refl
  length-set (suc i) v (value u vs) = rw (length-set i v vs)

  set-array :
      (vs : Values N) (part : String) (i : ℕ) (w : Value N)
      → pointer_index part (values_length vs) ≡ ok i
      → pointer_item (array (set_item i w vs)) part ≡ ok w
  unfolding pointer_item
  set-array vs part i w e =
      let l =
        Holds-ok (λ i. i < values_length vs) (pointer_index-bounded part (values_length vs)) e in
      rw (length-set i w vs, e, item-set i w vs l)

  set-object :
      (es : Entries N) (part : String) (c w : Value N)
      → pointer_item (object es) part ≡ ok c
      → pointer_item (object (set_entry part w es)) part ≡ ok w
  unfolding pointer_item
  set-object es part c w e = elim (Option-cases (get_entry part es)) [
    | inl f ↦ ground (arith, e, f)
    | inr (d, f) ↦ rw (get-set part w es d f)
  ]

  set_pointer_item-Holds :
      (t : Value N) (part : String) (c w : Value N)
      → pointer_item t part ≡ ok c
      → Holds (λ new. pointer_item new part ≡ ok w) (set_pointer_item t part w)
  unfolding set_pointer_item
  set_pointer_item-Holds (object es) part c w e = set-object es part c w e
  set_pointer_item-Holds (array vs) part c w e =
      Holds-then _ (pointer_index part (values_length vs)) _ (λ i f. set-array vs part i w f)
  set_pointer_item-Holds null part c w e = tt
  set_pointer_item-Holds (boolean b) part c w e = tt
  set_pointer_item-Holds (number n) part c w e = tt
  set_pointer_item-Holds (text s) part c w e = tt

  edit_last-Holds :
      (t : Value N) (key : String) (v : Value N)
      → text_eq key "-" ≡ false
      → Holds (λ new. pointer_item new key ≡ ok v) (edit_last t key v false)
  unfolding edit_last pointer_item
  edit_last-Holds (object es) key v p = rw (get-insert key v es)
  edit_last-Holds (array vs) key v p =
      rw p (Holds-then _ (pointer_index key (values_length vs)) _ (λ i f. set-array vs key i v f))
  edit_last-Holds null key v p = tt
  edit_last-Holds (boolean b) key v p = tt
  edit_last-Holds (number n) key v p = tt
  edit_last-Holds (text s) key v p = tt

  edit_parts-Holds :
      (t fallback : Value N) (part : String) (parts : List String) (v : Value N)
      → IsPlain part parts
      → Holds
          (λ new. get_parts new (part ∷ parts) ≡ ok v)
          (edit_parts t fallback part parts v false)
  unfolding edit_parts get_parts
  edit_parts-Holds t fallback part [] v p =
      Holds-map (λ new. pointer_item new part ≡ ok v) _ (edit_last t part v false) (λ new _ h. rw h)
        (edit_last-Holds t part v p)
  edit_parts-Holds t fallback part (next ∷ parts) v p =
      Holds-then _ (or_else (pointer_item fallback part) (pointer_item t part)) _ (λ inner _.
        Holds-then _ (pointer_item (make_field t part inner) part) _ (λ child e.
          Holds-bind (λ edited. get_parts edited (next ∷ parts) ≡ ok v) _
            (edit_parts child inner next parts v false) _
            (λ edited _ h.
              Holds-map (λ new. pointer_item new part ≡ ok edited) _
                (set_pointer_item (make_field t part inner) part edited) (λ new _ g. rw (g, h))
                (set_pointer_item-Holds (make_field t part inner) part child edited e))
            (edit_parts-Holds child inner next parts v p)))

  -- Once a value is set at a pointer, the pointer leads to it, unless the value was put behind the
  -- end of an array.
  pub get_parts-edit_pointer_parts :
      (document defaults : Value N) (part : String) (parts : List String) (v : Value N)
      → IsPlain part parts
      → Holds
          (λ new. get_parts new (part ∷ parts) ≡ ok v)
          (edit_pointer_parts document defaults (part ∷ parts) v false)
  unfolding edit_pointer_parts
  get_parts-edit_pointer_parts document defaults part parts v p =
      Holds-then _
        (ensure (not (text_eq part "number"))
          "room identity cannot be changed through a configuration field")
        _
        (λ _ _.
          Holds-then _
            (ensure (not (text_eq part "cluster" && is_permission parts v))
              "permission lists are managed through player commands")
            _ (λ _ _. edit_parts-Holds document defaults part parts v p))
