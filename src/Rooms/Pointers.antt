-- ===== src/Rooms/Pointers.antt =====
-- JSON Pointers in crates/dst-server/src/rooms.rs: the parts of a pointer, what it leads to, and the
-- edit of a room's configuration at one.
pub mod Edited
use Prim.Native.Char.{Char, code}
use Prim.Native.String.{◌++◌}
use dst_server.Base.{
  ℕ, zero, suc, ◌+◌, ◌-◌, ◌*◌, String, Bool, true, false, not, ◌&&◌, ◌||◌, List, [], ◌∷◌, Option,
  none, some, Result, ok, err, Fault, message, Fallible, ◌>>=◌, ◌>>◌, ensure, or_fail, any,
  mem_text, text_eq, text_is_empty, is_digit, ltb, leb, ◌==◌, if◌then◌else◌, is_empty,
}
use dst_server.Model.Json.{
  Value, null, boolean, number, text, array, object, Values, no_values, value, Entries, no_entries,
  entry, values_length, contains_key, insert_entry,
}

abbrev pub prepend : Char → List String → List String
prepend c [] = []
prepend c (s ∷ ss) = String.◌∷◌ c s ∷ ss

-- `split('/')`.
unfoldable pub split_slash : String → List String
split_slash String.[] = "" ∷ []
split_slash (String.◌∷◌ c s) =
    let rest = split_slash s in if code c == 47 then "" ∷ rest else prepend c rest

abbrev pub push_first : Char → Fallible String → Fallible String
push_first c rest = do s ← rest; ok (String.◌∷◌ c s)

-- `~0` is a tilde and `~1` a slash.
unfoldable pub decode_part : String → Fallible String
decode_part String.[] = ok ""
decode_part (String.◌∷◌ c String.[]) =
    if code c == 126 then err (message "invalid JSON Pointer escape") else ok (String.◌∷◌ c "")
decode_part (String.◌∷◌ c (String.◌∷◌ d s)) =
    let one = decode_part (String.◌∷◌ d s) in
    let two = decode_part s in
    if not (code c == 126)
    then push_first c one
    else if code d == 48
    then (do t ← two; ok ("~" ++ t))
    else if code d == 49
    then (do t ← two; ok ("/" ++ t))
    else err (message "invalid JSON Pointer escape")

unfoldable pub decode_parts : List String → Fallible (List String)
unfolding decode_part
decode_parts [] = ok []
decode_parts (p ∷ ps) = do q ← decode_part p; qs ← decode_parts ps; ok (q ∷ qs)

unfoldable pub pointer_parts : String → Fallible (List String)
unfolding split_slash decode_parts
pointer_parts String.[] = ok []
pointer_parts (String.◌∷◌ c s) =
    if code c == 47 then decode_parts (split_slash s) else err (message "invalid JSON Pointer")

-- The digits of a number, from the first, and whether all are.
abbrev pub all_digits : String → Bool
all_digits String.[] = true
all_digits (String.◌∷◌ c s) = is_digit (code c) && all_digits s

unfoldable pub read_digits : ℕ → String → ℕ
read_digits n String.[] = n
read_digits n (String.◌∷◌ c s) = read_digits (n * 10 + (code c - 48)) s

abbrev pub starts_zero : String → Bool
starts_zero String.[] = false
starts_zero (String.◌∷◌ c s) = code c == 48

-- A `usize` has 64 bits.
unfoldable pub pointer_index : String → ℕ → Fallible ℕ
unfolding read_digits
pointer_index part length = do
  ensure
      (not (text_is_empty part)
        && (all_digits part && (text_eq part "0" || not (starts_zero part))))
      "invalid JSON Pointer array index"
  ensure (ltb (read_digits 0 part) 18446744073709551616) "invalid JSON Pointer array index"
  ensure (ltb (read_digits 0 part) length) "JSON Pointer array index is out of range"
  ok (read_digits 0 part)

abbrev pub absent_field : {A : Type 0} → Option A → Fallible A
absent_field o = or_fail o (message "JSON Pointer field is absent")

abbrev pub permission_fields : List String
permission_fields = "adminlist" ∷ "whitelist" ∷ "blocklist" ∷ []

module _ {N : Type 0} where
  unfoldable pub get_entry : String → Entries N → Option (Value N)
  get_entry k no_entries = none
  get_entry k (entry j v es) = if text_eq j k then some v else get_entry k es

  unfoldable pub remove_entry : String → Entries N → Entries N
  remove_entry k no_entries = no_entries
  remove_entry k (entry j v es) =
      let rest = remove_entry k es in if text_eq j k then es else entry j v rest

  -- The value of a key that is there is replaced.
  unfoldable pub set_entry : String → Value N → Entries N → Entries N
  set_entry k v no_entries = no_entries
  set_entry k v (entry j w es) =
      let rest = set_entry k v es in if text_eq j k then entry j v es else entry j w rest

  unfoldable pub get_item : ℕ → Values N → Option (Value N)
  get_item i no_values = none
  get_item zero (value v vs) = some v
  get_item (suc i) (value v vs) = get_item i vs

  unfoldable pub set_item : ℕ → Value N → Values N → Values N
  set_item i w no_values = no_values
  set_item zero w (value v vs) = value w vs
  set_item (suc i) w (value v vs) = value v (set_item i w vs)

  unfoldable pub remove_item : ℕ → Values N → Values N
  remove_item i no_values = no_values
  remove_item zero (value v vs) = vs
  remove_item (suc i) (value v vs) = value v (remove_item i vs)

  unfoldable pub push_item : Value N → Values N → Values N
  push_item w no_values = value w no_values
  push_item w (value v vs) = value v (push_item w vs)

  unfoldable pub pointer_item : Value N → String → Fallible (Value N)
  unfolding get_entry pointer_index values_length get_item
  pointer_item (object es) part = absent_field (get_entry part es)
  pointer_item (array vs) part = do
    i ← pointer_index part (values_length vs)
    or_fail (get_item i vs) Fault.panic
  pointer_item v part = err (message "JSON Pointer cannot traverse a scalar")

  -- What is behind `pointer_item_mut` is replaced.
  unfoldable pub set_pointer_item : Value N → String → Value N → Fallible (Value N)
  unfolding set_entry pointer_index values_length set_item
  set_pointer_item (object es) part w = ok (object (set_entry part w es))
  set_pointer_item (array vs) part w = do
    i ← pointer_index part (values_length vs)
    ok (array (set_item i w vs))
  set_pointer_item v part w = err (message "JSON Pointer cannot traverse a scalar")

  -- A container that the defaults have is made where it is missing.
  unfoldable pub make_field : Value N → String → Value N → Value N
  unfolding contains_key insert_entry
  make_field (object es) part (object ds) =
      if contains_key part es then object es else object (insert_entry part (object no_entries) es)
  make_field (object es) part (array ds) =
      if contains_key part es then object es else object (insert_entry part (array ds) es)
  make_field v part fallback = v

  -- The last step of an edit.
  unfoldable pub edit_last : Value N → String → Value N → Bool → Fallible (Value N)
  unfolding insert_entry remove_entry push_item pointer_index values_length set_item remove_item
      contains_key
  edit_last (object es) key v true = do
    ensure (contains_key key es) "JSON Pointer field is absent"
    ok (object (remove_entry key es))
  edit_last (object es) key v false = ok (object (insert_entry key v es))
  edit_last (array vs) key v false =
      if text_eq key "-"
      then ok (array (push_item v vs))
      else (do i ← pointer_index key (values_length vs); ok (array (set_item i v vs)))
  edit_last (array vs) key v true = do
    i ← pointer_index key (values_length vs)
    ok (array (remove_item i vs))
  edit_last target key v unset = err (message "JSON Pointer parent is not an object or array")

  abbrev pub or_else : Fallible (Value N) → Fallible (Value N) → Fallible (Value N)
  or_else (ok v) other = ok v
  or_else (err e) other = other

  -- The loop over the parts before the last one, with the rest of the edit; the first part is an
  -- argument of its own.
  unfoldable pub edit_parts :
      Value N → Value N → String → List String → Value N → Bool → Fallible (Value N)
  unfolding pointer_item make_field set_pointer_item edit_last
  edit_parts target fallback part [] v unset = edit_last target part v unset
  edit_parts target fallback part (next ∷ parts) v unset = do
    inner ← or_else (pointer_item fallback part) (pointer_item target part)
    let made = make_field target part inner
    child ← pointer_item made part
    edited ← edit_parts child inner next parts v unset
    set_pointer_item made part edited

  abbrev pub has_permission : Value N → Bool
  has_permission (object es) = any (λ field. contains_key field es) permission_fields
  has_permission v = false

  -- Whether an edit of the cluster is one of a player list.
  abbrev pub is_permission : List String → Value N → Bool
  is_permission [] v = has_permission v
  is_permission (field ∷ parts) v = mem_text field permission_fields

  unfoldable pub edit_pointer_parts :
      Value N → Value N → List String → Value N → Bool → Fallible (Value N)
  unfolding edit_parts contains_key
  edit_pointer_parts document defaults [] v unset =
      err (message "room identity cannot be changed through a configuration field")
  edit_pointer_parts document defaults (part ∷ parts) v unset = do
    ensure (not (text_eq part "number"))
        "room identity cannot be changed through a configuration field"
    ensure (not (text_eq part "cluster" && is_permission parts v))
        "permission lists are managed through player commands"
    edit_parts document defaults part parts v unset

  unfoldable pub edit_pointer : Value N → Value N → String → Value N → Bool → Fallible (Value N)
  unfolding pointer_parts edit_pointer_parts
  edit_pointer document defaults pointer v unset = do
    parts ← pointer_parts pointer
    edit_pointer_parts document defaults parts v unset

  -- The loop of `Room::get`.
  unfoldable pub get_parts : Value N → List String → Fallible (Value N)
  unfolding pointer_item
  get_parts v [] = ok v
  get_parts v (part ∷ parts) = do inner ← pointer_item v part; get_parts inner parts
