-- ===== src/Recovery/Snapshots.antt =====
-- The snapshot catalogs of crates/dst-server/src/recovery.rs: the current save of the room, the
-- snapshot a rollback goes to, and the check before a rollback is resumed.
use dst_server.Base.{
  ℕ, ◌-◌, max, min, String, Bool, true, false, not, ◌&&◌, Option, none, some, List, [], ◌∷◌, map,
  Result, ok, err, message, panic, Fallible, ◌>>=◌, ◌>>◌, ensure, or_fail, keys, values, lookup,
  same_texts, text_eq, is_empty, all, any, find, keep, ltb, leb, ◌==◌, if◌then◌else◌,
}
use dst_server.Recovery.State.{
  Snapshot, Catalog, Catalogs, SavedShard, SavedRoom, ClosedReason, FixedTarget, preparing,
  verify_saved, max_snapshot_gap,
}
use dst_server.Recovery.State

-- Why a rollback is refused: a reason to close, or a panic of an index or an `unwrap`.
pub data Refusal : Type 0 where
  refused : ClosedReason → Refusal
  panicked : Refusal

-- `map_err(|_| reason)` on an `anyhow` result; a panic goes on.
abbrev pub refuse {ℓ} : {A : Type ℓ} → Fallible A → ClosedReason → Result Refusal A
refuse (ok a) reason = ok a
refuse (err (message _)) reason = err (refused reason)
refuse (err panic) reason = err panicked

-- `.ok()` and `let Ok(a) = … else`; a panic goes on.
abbrev pub settled {ℓ} : {A : Type ℓ} → Fallible A → Fallible (Option A)
settled (ok a) = ok (some a)
settled (err (message _)) = ok none
settled (err panic) = err panic

-- `Iterator::max` and `Iterator::min`.
abbrev pub maximum : List ℕ → Option ℕ
maximum [] = none
maximum (n ∷ ns) = some (elim (maximum ns) [ none ↦ n | some m ↦ max n m ])

abbrev pub minimum : List ℕ → Option ℕ
minimum [] = none
minimum (n ∷ ns) = some (elim (minimum ns) [ none ↦ n | some m ↦ min n m ])

abbrev pub has_id : ℕ → Snapshot → Bool
has_id id snapshot = snapshot.snapshot_id == id

-- `snapshot.world_file.as_deref() == Some(&file)`.
abbrev pub has_file : String → Option String → Bool
has_file file none = false
has_file file (some f) = text_eq f file

abbrev pub has_some_file : Snapshot → Bool
has_some_file snapshot = not (State.is_none snapshot.world_file)

unfoldable pub saved : Catalog → Snapshot → Fallible SavedShard
saved catalog snapshot = do
  world_file ← or_fail snapshot.world_file (message "snapshot world file is missing")
  let shard : SavedShard = record {
    session_id = catalog.session_id;
    snapshot_id = snapshot.snapshot_id;
    world_file = world_file;
  }
  verify_saved shard
  ok shard

-- `all(|snapshot| ids.insert(snapshot.snapshot_id))`: no identity comes twice.
unfoldable pub distinct_ids : List Snapshot → Bool
distinct_ids [] = true
distinct_ids (snapshot ∷ rest) = not (any (has_id snapshot.snapshot_id) rest) && distinct_ids rest

unfoldable pub latest_shard : Catalog → Fallible SavedShard
latest_shard catalog = do
  ensure (distinct_ids catalog.snapshots) "duplicate snapshot identity"
  latest ←
      or_fail (find (λ s. has_file catalog.latest_world_file s.world_file) catalog.snapshots)
        (message "latest snapshot is absent from its catalog")
  saved catalog latest

-- `required.iter().map(…).collect()`; `catalogs[name]` panics on a missing name.
unfoldable pub latest_shards : List String → Catalogs → Fallible SavedRoom
latest_shards [] catalogs = ok []
latest_shards (name ∷ names) catalogs = do
  catalog ← or_fail (lookup name catalogs) panic
  shard ← latest_shard catalog
  rest ← latest_shards names catalogs
  ok ((name, shard) ∷ rest)

unfoldable pub latest_room : List String → Catalogs → Fallible SavedRoom
latest_room required catalogs = do
  ensure (not (is_empty required) && same_texts (keys catalogs) required)
      "required shard catalogs differ"
  latest_shards required catalogs

abbrev pub ids : SavedRoom → List ℕ
ids room = map (λ s. s.snapshot_id) (values room)

-- Every catalog has the snapshot with its world file.
unfoldable pub complete : Catalogs → ℕ → Bool
complete catalogs id =
    all (λ (c : Catalog). any (λ s. has_id id s && has_some_file s) c.snapshots) (values catalogs)

-- The two filters and the maximum over the first catalog.
unfoldable pub select : List Snapshot → Catalogs → ℕ → ℕ → Option ℕ
select snapshots catalogs failed_snapshot_id oldest = maximum (
    map (λ s. s.snapshot_id)
      (keep (λ s. complete catalogs s.snapshot_id)
        (keep
          (λ s.
            ltb 0 s.snapshot_id
            && (ltb s.snapshot_id failed_snapshot_id && leb s.snapshot_id oldest))
          snapshots)))

-- The loop that collects the target's shards.
unfoldable pub target_shards : Catalogs → ℕ → Result Refusal SavedRoom
target_shards [] id = ok []
target_shards ((name, catalog) ∷ rest) id = do
  snapshot ← or_fail (find (has_id id) catalog.snapshots) panicked
  shard ← refuse (saved catalog snapshot) ClosedReason.unproven_snapshots
  shards ← target_shards rest id
  ok ((name, shard) ∷ shards)

abbrev first_snapshots : Catalogs → Option (List Snapshot)
first_snapshots [] = none
first_snapshots ((name, catalog) ∷ rest) = some catalog.snapshots

unfoldable pub previous_target : SavedRoom → Catalogs → ℕ → Result Refusal FixedTarget
previous_target latest catalogs failed_snapshot_id = do
  newest ← or_fail (maximum (ids latest)) panicked
  oldest ← or_fail (minimum (ids latest)) panicked
  first ← or_fail (first_snapshots catalogs) panicked
  selected ←
      or_fail (select first catalogs failed_snapshot_id oldest)
        (refused ClosedReason.no_previous_complete_snapshot)
  if ltb max_snapshot_gap (newest - selected)
      then err (refused ClosedReason.snapshot_gap_exceeded)
      else do
        shards ← target_shards catalogs selected
        ok (record { snapshot_id = selected; shards = shards; phase = preparing })

unfoldable pub same_shard : SavedShard → SavedShard → Bool
same_shard a b =
    text_eq a.session_id b.session_id
    && (a.snapshot_id == b.snapshot_id && text_eq a.world_file b.world_file)

-- One round of the loop of `verify_replay`.
unfoldable pub replay_shard :
    ℕ → SavedRoom → Catalogs → String → SavedShard → Result Refusal (Unit {0})
replay_shard id latest catalogs name expected = do
  current ← or_fail (lookup name latest) panicked
  if not (text_eq current.session_id expected.session_id)
      then err (refused ClosedReason.session_changed)
      else do
        catalog ← or_fail (lookup name catalogs) panicked
        snapshot ←
            or_fail (find (has_id id) catalog.snapshots)
              (refused ClosedReason.no_previous_complete_snapshot)
        found ← refuse (saved catalog snapshot) ClosedReason.unproven_snapshots
        if not (same_shard found expected)
            then err (refused ClosedReason.current_save_changed)
            else if ltb current.snapshot_id id
            then err (refused ClosedReason.current_save_changed)
            else if ltb max_snapshot_gap (current.snapshot_id - id)
            then err (refused ClosedReason.snapshot_gap_exceeded)
            else ok tt

unfoldable pub replay_shards : ℕ → SavedRoom → Catalogs → SavedRoom → Result Refusal (Unit {0})
replay_shards id latest catalogs [] = ok tt
replay_shards id latest catalogs ((name, expected) ∷ rest) = do
  replay_shard id latest catalogs name expected
  replay_shards id latest catalogs rest

unfoldable pub verify_replay : FixedTarget → List String → Catalogs → Result Refusal (Unit {0})
verify_replay target required catalogs = do
  latest ← refuse (latest_room required catalogs) ClosedReason.unproven_snapshots
  if not (same_texts (keys target.shards) (keys latest))
      then err (refused ClosedReason.session_changed)
      else replay_shards target.snapshot_id latest catalogs target.shards
