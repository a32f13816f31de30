-- ===== src/Rpc/Values/Maps.antt =====
-- Maps whose entries are in the order of their keys: an entry with a later key goes to the end.
use dst_server.Base.{◌≡◌, refl, String, true, false, text_eq, text_eq_iff, arith}
use dst_server.Model.Json.{Value, Entries, no_entries, entry, contains_key, insert_entry, before}

-- The entries of a map: each key is before those that follow.
module _ {N : Type 0} where
  abbrev pub IsAfter : String → Entries N → Type 0
  IsAfter k no_entries = Unit
  IsAfter k (entry j v es) = (before k j ≡ true) × IsAfter k es

  -- The keys of `es` are before `k`.
  abbrev pub IsBelow : Entries N → String → Type 0
  IsBelow no_entries k = Unit
  IsBelow (entry j v es) k = (before j k ≡ true) × IsBelow es k

  -- The keys of `es` are before those of the other map.
  abbrev pub AreBelow : Entries N → Entries N → Type 0
  AreBelow es no_entries = Unit
  AreBelow es (entry k v fs) = IsBelow es k × AreBelow es fs

  abbrev pub join : Entries N → Entries N → Entries N
  join no_entries fs = fs
  join (entry k v es) fs = entry k v (join es fs)

before_irrefl : (s : String) → before s s ≡ false
unfolding before
before_irrefl String.[] = refl
before_irrefl (String.◌∷◌ c s) = ground (arith, before_irrefl s)

before_asym : (s t : String) → before s t ≡ true → before t s ≡ false
unfolding before
before_asym String.[] String.[] e = refl
before_asym String.[] (String.◌∷◌ d t) e = refl
before_asym (String.◌∷◌ c s) String.[] e = ground arith
before_asym (String.◌∷◌ c s) (String.◌∷◌ d t) e = ground (arith, before_asym s t)

before-not_same : (s t : String) → before s t ≡ true → text_eq s t ≡ false
before-not_same s t e = grind (arith, text_eq_iff s t, before_irrefl s, e)

module _ {N : Type 0} where
  pub contains_key-below : (k : String) (es : Entries N) → IsBelow es k → contains_key k es ≡ false
  unfolding contains_key
  contains_key-below k no_entries h = refl
  contains_key-below k (entry j v es) (h, hs) =
      rw (before-not_same j k h, contains_key-below k es hs)

  pub insert-below :
      (k : String) (v : Value N) (es : Entries N)
      → IsBelow es k
      → insert_entry k v es ≡ join es (entry k v no_entries)
  unfolding insert_entry
  insert-below k v no_entries h = refl
  insert-below k v (entry j w es) (h, hs) =
      rw (before-not_same j k h, before_asym j k h, insert-below k v es hs)

  pub join_assoc :
      (es : Entries N) (k : String) (v : Value N) (fs : Entries N)
      → join (join es (entry k v no_entries)) fs ≡ join es (entry k v fs)
  join_assoc no_entries k v fs = refl
  join_assoc (entry j w es) k v fs = rw (join_assoc es k v fs)

  IsBelow-join :
      (es : Entries N) (k : String) (v : Value N) (l : String)
      → IsBelow es l
      → before k l ≡ true
      → IsBelow (join es (entry k v no_entries)) l
  IsBelow-join no_entries k v l h b = (b, tt)
  IsBelow-join (entry j w es) k v l (h, hs) b = (h, IsBelow-join es k v l hs b)

  pub AreBelow-join :
      (es : Entries N) (k : String) (v : Value N) (fs : Entries N)
      → AreBelow es fs
      → IsAfter k fs
      → AreBelow (join es (entry k v no_entries)) fs
  AreBelow-join es k v no_entries h a = tt
  AreBelow-join es k v (entry l w fs) (h, hs) (a, as_) =
      (IsBelow-join es k v l h a, AreBelow-join es k v fs hs as_)

  pub below-none : (es : Entries N) → AreBelow no_entries es
  below-none no_entries = tt
  below-none (entry k v es) = (tt, below-none es)

  pub join-none : (es : Entries N) → join es no_entries ≡ es
  join-none no_entries = refl
  join-none (entry k v es) = rw (join-none es)
