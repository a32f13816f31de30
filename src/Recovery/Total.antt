-- ===== src/Recovery/Total.antt =====
-- `decide` of recovery.rs always answers: none of its indexing and unwrapping can panic.
use dst_server.Base.{
  ℕ, ◌+◌, ◌≤◌, ◌≡◌, ◌≢◌, refl, true, false, ◌&&◌, List, [], ◌∷◌, String, Option, none, some, ok,
  err, Result, Fallible, message, panic, Map, arith, Result-cases, inl, inr, Bool-cases, is_empty,
  keys, lookup, mem_text, same_texts, same_texts_iff, text_eq_iff, any, find,
}
use dst_server.Recovery.State.{
  Catalog, Catalogs, Snapshot, SavedRoom, RecoveryState, CurrentRetry, Failure, Decision,
  verify_saved,
}
use dst_server.Recovery.Snapshots.{
  Refusal, refused, panicked, saved, latest_shard, latest_shards, latest_room, maximum, minimum,
  ids, has_id, has_some_file, complete, target_shards, previous_target,
}
use dst_server.Recovery.Valid.{latest_room-Holds}
use dst_server.Recovery.Rollback.{select-Everywhere}
use dst_server.Recovery.Decide.{
  sessions_differ, retry_differs, reserve_retry, roll_back, answer, weigh, recover, decide,
}

-- A call that does not panic, and one that succeeds.
abbrev Calm {ℓ} : {A : Type ℓ} → Fallible A → Type 0
Calm (ok a) = Unit
Calm (err (message m)) = Unit
Calm (err panic) = ⊥

abbrev Succeeds {ℓ} : {A : Type ℓ} → Fallible A → Type 0
Succeeds (ok a) = Unit
Succeeds (err e) = ⊥

latest_shard-Calm : (c : Catalog) → Calm (latest_shard c)
unfolding latest_shard saved verify_saved
latest_shard-Calm c = ground arith

lookup-mem {ℓ} :
    {A : Type ℓ} (k : String) (m : Map A) → mem_text k (keys m) ≡ true → lookup k m ≡ none → ⊥
lookup-mem k [] h e = ground arith
lookup-mem k ((j, a) ∷ m) h e = ground (arith, lookup-mem k m)

-- Every text of the first list is in the second.
abbrev Within : List String → List String → Type 0
Within [] ks = Unit
Within (s ∷ ss) ks = (mem_text s ks ≡ true) × Within ss ks

Within-cons : (k : String) (ss ks : List String) → Within ss ks → Within ss (k ∷ ks)
Within-cons k [] ks h = tt
Within-cons k (s ∷ ss) ks h = (ground (arith, h.0), Within-cons k ss ks h.1)

Within-refl : (ks : List String) → Within ks ks
Within-refl [] = tt
Within-refl (k ∷ ks) = (ground (arith, text_eq_iff k k), Within-cons k ks ks (Within-refl ks))

latest_shards-Calm :
    (names : List String) (catalogs : Catalogs)
    → Within names (keys catalogs)
    → Calm (latest_shards names catalogs)
unfolding latest_shards
latest_shards-Calm [] catalogs h = tt
latest_shards-Calm (n ∷ ns) catalogs h =
    grind (arith, lookup-mem n catalogs h.0, latest_shard-Calm, latest_shards-Calm ns catalogs h.1)

latest_room-Calm :
    (required : List String) (catalogs : Catalogs) → Calm (latest_room required catalogs)
unfolding latest_room
latest_room-Calm required catalogs = elim (Bool-cases (same_texts (keys catalogs) required)) [
  | inr e ↦ ground (arith, e)
  | inl e ↦
      let same = (same_texts_iff (keys catalogs) required).0 e in
      ground
        (arith, e, latest_shards-Calm required catalogs (rw (← same) (Within-refl (keys catalogs))))
]

sessions_differ-Succeeds :
    (previous latest : SavedRoom)
    → Within (keys previous) (keys latest)
    → Succeeds (sessions_differ previous latest)
unfolding sessions_differ
sessions_differ-Succeeds [] latest h = tt
sessions_differ-Succeeds ((n, s) ∷ rest) latest h =
    ground (arith, lookup-mem n latest h.0, sessions_differ-Succeeds rest latest h.1)

retry_differs-Succeeds :
    (retry : Option CurrentRetry) (latest : SavedRoom) → Succeeds (retry_differs retry latest)
unfolding retry_differs
retry_differs-Succeeds none latest = tt
retry_differs-Succeeds (some r) latest =
    elim (Bool-cases (same_texts (keys r.shards) (keys latest))) [
      | inr e ↦ rw e tt
      | inl e ↦
          let same = (same_texts_iff (keys r.shards) (keys latest)).0 e in
          rw e (sessions_differ-Succeeds r.shards latest (rw same (Within-refl (keys latest))))
    ]

abbrev NoPanic {ℓ} : {A : Type ℓ} → Result Refusal A → Type 0
NoPanic (ok a) = Unit
NoPanic (err (refused reason)) = Unit
NoPanic (err panicked) = ⊥

find-any :
    (id : ℕ) (ss : List Snapshot)
    → any (λ s. has_id id s && has_some_file s) ss ≡ true
    → find (has_id id) ss ≡ none
    → ⊥
find-any id [] h e = ground arith
find-any id (s ∷ ss) h e = ground (arith, find-any id ss)

target_shards-NoPanic :
    (catalogs : Catalogs) (id : ℕ)
    → complete catalogs id ≡ true
    → NoPanic (target_shards catalogs id)
unfolding target_shards complete saved verify_saved
target_shards-NoPanic [] id h = tt
target_shards-NoPanic ((n, c) ∷ cs) id h =
    ground (arith, find-any id c.snapshots, target_shards-NoPanic cs id)

ids-nonempty :
    (latest : SavedRoom)
    → is_empty latest ≡ false
    → (maximum (ids latest) ≢ none) × (minimum (ids latest) ≢ none)
ids-nonempty [] h = ground arith
ids-nonempty ((n, x) ∷ rest) h = ((λ e. ground arith), (λ e. ground arith))

previous_target-NoPanic :
    (latest : SavedRoom) (catalogs : Catalogs) (failed : ℕ)
    → is_empty latest ≡ false
    → is_empty catalogs ≡ false
    → NoPanic (previous_target latest catalogs failed)
unfolding previous_target
previous_target-NoPanic latest [] failed l h = ground arith
previous_target-NoPanic latest ((n, c) ∷ cs) failed l h = grind (
  arith,
  ids-nonempty latest l,
  select-Everywhere c.snapshots ((n, c) ∷ cs) failed,
  target_shards-NoPanic,
)

module _ (s : RecoveryState) (latest : SavedRoom) (catalogs : Catalogs) (now : ℕ)
    (l : is_empty latest ≡ false) (k : is_empty catalogs ≡ false)
    (t : now + 30000 ≤ 18446744073709551615) where
  answer-Succeeds : (failed : Option ℕ) → Succeeds (answer s latest catalogs now failed)
  unfolding answer reserve_retry roll_back
  answer-Succeeds none = ground (arith, ids-nonempty latest l)
  answer-Succeeds (some f) =
      ground (arith, ids-nonempty latest l, previous_target-NoPanic latest catalogs f l k)

  weigh-Succeeds : (failure : Failure) → Succeeds (weigh s failure latest catalogs now)
  unfolding weigh
  weigh-Succeeds failure = grind (arith, retry_differs-Succeeds s.retry latest, answer-Succeeds)

latest_room-catalogs :
    (required : List String) (catalogs : Catalogs) {latest : SavedRoom}
    → latest_room required catalogs ≡ ok latest
    → is_empty catalogs ≡ false
unfolding latest_room
latest_room-catalogs [] catalogs h = ground arith
latest_room-catalogs (n ∷ ns) [] h = ground arith
latest_room-catalogs (n ∷ ns) (c ∷ cs) h = refl

decide-Succeeds :
    (s : RecoveryState) (failure : Failure) (required : List String) (catalogs : Catalogs) (now : ℕ)
    → now + 30000 ≤ 18446744073709551615
    → Succeeds (decide s failure required catalogs now)
unfolding decide recover
decide-Succeeds s failure required catalogs now t = grind (
  arith,
  latest_room-Calm required catalogs,
  latest_room-Holds required catalogs,
  latest_room-catalogs required catalogs,
  weigh-Succeeds,
  t,
)

-- A failure is always answered, whatever the stored state and the catalogs are: no index and no
-- `unwrap` of the decision can panic, and it has no other error, as long as half a minute from now
-- is a 64-bit time.
pub decide_total :
    (s : RecoveryState) (failure : Failure) (required : List String) (catalogs : Catalogs) (now : ℕ)
    → now + 30000 ≤ 18446744073709551615
    → (r : RecoveryState × Decision) × (decide s failure required catalogs now ≡ ok r)
decide_total s failure required catalogs now t =
    elim (Result-cases (decide s failure required catalogs now)) [
      | inl r ↦ r
      | inr (e, h) ↦ absurd (rw h at (decide-Succeeds s failure required catalogs now t))
    ]
