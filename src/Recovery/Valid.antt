-- ===== src/Recovery/Valid.antt =====
-- The state that recovery.rs persists: what `validate` accepts, and which changes keep it.
use dst_server.Base.{
  ℕ, ◌≤◌, ◌≡◌, refl, List, [], ◌∷◌, Option, none, some, ok, arith, values, is_empty, find-passes,
  String, false, Holds,
}
use dst_server.Recovery.State.{
  Catalog, Catalogs, Snapshot, SavedShard, SavedRoom, RecoveryState, FixedTarget, ClosedReason,
  verify_saved, verify_all, verify_target, validate_retry, validate_target, validate, fail_target,
  close, reset_target, reset, preparing,
}
use dst_server.Recovery.Snapshots.{
  saved, has_id, latest_shard, latest_shards, latest_room, target_shards, previous_target,
}

-- The parts of a state that `validate` accepts.
abbrev pub Parts : RecoveryState → Type 0
Parts s =
    (s.restarts_used ≤ 2)
    × (validate_retry s.restarts_used s.closed s.retry ≡ ok tt)
    × (validate_target s.target ≡ ok tt)

pub validate-Parts : (s : RecoveryState) → validate s ≡ ok tt → Parts s
unfolding validate
validate-Parts s h = ground arith

pub Parts-validate : (s : RecoveryState) → Parts s → validate s ≡ ok tt
unfolding validate
Parts-validate s p = ground arith

pub fail_target-valid :
    (t : Option FixedTarget) → validate_target t ≡ ok tt → validate_target (fail_target t) ≡ ok tt
unfolding fail_target validate_target
fail_target-valid none h = refl
fail_target-valid (some t) h = ground arith

pub close-valid : (s : RecoveryState) (reason : ClosedReason) → Parts s → Parts (close s reason).0
unfolding close validate_retry
close-valid s reason p = (p.0, refl, fail_target-valid s.target p.2)

pub reset_target-valid :
    (t : Option FixedTarget) → validate_target t ≡ ok tt → validate_target (reset_target t) ≡ ok tt
unfolding reset_target validate_target
reset_target-valid none h = refl
reset_target-valid (some t) h = ground arith

pub reset-valid : (s : RecoveryState) → Parts s → Parts (reset s)
unfolding reset validate_retry
reset-valid s p = (omega arith, refl, reset_target-valid s.target p.2)

pub saved-Holds :
    (c : Catalog) (s : Snapshot)
    → Holds
        (λ x.
          (verify_saved x ≡ ok tt)
          × (x.snapshot_id ≡ s.snapshot_id)
          × (x.session_id ≡ c.session_id)
          × (s.world_file ≡ some x.world_file))
        (saved c s)
unfolding saved
saved-Holds c s = ground arith

abbrev Verified : SavedShard → Type 0
Verified x = verify_saved x ≡ ok tt

abbrev AllVerified : SavedRoom → Type 0
AllVerified room = verify_all (values room) ≡ ok tt

latest_shard-Holds : (c : Catalog) → Holds Verified (latest_shard c)
unfolding latest_shard
latest_shard-Holds c = grind (arith, saved-Holds)

latest_shards-Holds :
    (names : List String) (catalogs : Catalogs) → Holds AllVerified (latest_shards names catalogs)
unfolding latest_shards verify_all
latest_shards-Holds [] catalogs = refl
latest_shards-Holds (n ∷ ns) catalogs =
    grind (arith, latest_shard-Holds, latest_shards-Holds ns catalogs)

abbrev pub NonEmpty : SavedRoom → Type 0
NonEmpty room = (verify_all (values room) ≡ ok tt) × (is_empty room ≡ false)

pub latest_room-Holds :
    (names : List String) (catalogs : Catalogs) → Holds NonEmpty (latest_room names catalogs)
unfolding latest_room latest_shards
latest_room-Holds [] catalogs = ground arith
latest_room-Holds (n ∷ ns) catalogs = grind (arith, latest_shards-Holds (n ∷ ns) catalogs)

abbrev Targets : ℕ → SavedRoom → Type 0
Targets id room = verify_target id (values room) ≡ ok tt

target_shards-Holds :
    (catalogs : Catalogs) (id : ℕ) → Holds (Targets id) (target_shards catalogs id)
unfolding target_shards verify_target
target_shards-Holds [] id = refl
target_shards-Holds ((n, c) ∷ rest) id =
    grind (arith, saved-Holds, find-passes (has_id id) c.snapshots, target_shards-Holds rest id)

target_shards-full :
    (catalogs : Catalogs) (id : ℕ)
    → Holds (λ (room : SavedRoom). is_empty room ≡ is_empty catalogs) (target_shards catalogs id)
unfolding target_shards
target_shards-full [] id = refl
target_shards-full ((n, c) ∷ rest) id = ground arith

abbrev pub IsTarget : FixedTarget → Type 0
IsTarget t = (validate_target (some t) ≡ ok tt) × (t.phase ≡ preparing)

pub previous_target-Holds :
    (latest : SavedRoom) (catalogs : Catalogs) (failed : ℕ)
    → Holds IsTarget (previous_target latest catalogs failed)
unfolding previous_target validate_target
previous_target-Holds latest [] failed = ground arith
previous_target-Holds latest (c ∷ cs) failed =
    grind (arith, target_shards-Holds, target_shards-full)
