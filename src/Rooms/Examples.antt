-- ===== src/Rooms/Examples.antt =====
-- A configuration with a shard's settings, edited at `/shards/0/port`, which the defaults have.
use dst_server.Base.{ℕ, ◌≡◌, refl, false, [], ◌∷◌, ok, Holds}
use dst_server.Model.Json.{Value, number, array, object, no_values, value, no_entries, entry}
use dst_server.Rooms.Pointers.{edit_pointer, edit_pointer_parts, get_parts}
use dst_server.Rooms.Pointers.Edited.{get_parts-edit_pointer_parts}

abbrev settings : Value ℕ
settings = object (entry "shards" (array (value (object no_entries) no_values)) no_entries)

abbrev defaults : Value ℕ
defaults = object (
    entry "shards" (array (value (object (entry "port" (number 10999) no_entries)) no_values))
      no_entries)

get_parts-edit_pointer_parts_example :
    Holds
      (λ new. get_parts new ("shards" ∷ "0" ∷ "port" ∷ []) ≡ ok (number 11000))
      (edit_pointer_parts settings defaults ("shards" ∷ "0" ∷ "port" ∷ []) (number 11000) false)
get_parts-edit_pointer_parts_example =
    get_parts-edit_pointer_parts settings defaults "shards" ("0" ∷ "port" ∷ []) (number 11000) refl

edited_eq :
    edit_pointer settings defaults "/shards/0/port" (number 11000) false
    ≡ ok (
        object (
          entry "shards"
            (array (value (object (entry "port" (number 11000) no_entries)) no_values))
            no_entries))
unfolding edit_pointer
edited_eq = refl
