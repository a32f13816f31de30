-- ===== src/Recovery/Decide.antt =====
-- `decide` of crates/dst-server/src/recovery.rs: the answer to a game failure.
use dst_server.Base.{
  ℕ, ◌+◌, ◌-◌, min, String, Bool, true, false, not, ◌&&◌, Option, none, some, List, [], ◌∷◌, Result,
  ok, err, message, panic, Fallible, ◌>>=◌, or_fail, Map, keys, lookup, same_texts, text_eq,
  is_empty, ltb, if◌then◌else◌,
}
use dst_server.Recovery.State.{
  Catalogs, SavedShard, SavedRoom, FailedLoad, Failure, load_failure, retryable, ClosedReason,
  FixedTarget, CurrentRetry, RecoveryState, Decision, retry_current, restore, stay_closed,
  in_flight, is_none, close, current_restarts, max_snapshot_gap, retry_delay_ms, u64_max,
}
use dst_server.Recovery.Snapshots.{
  refused, panicked, settled, maximum, minimum, ids, latest_room, previous_target,
}

-- The failures that no restart can cure.
abbrev pub fatal : Failure → Option ClosedReason
fatal Failure.disk = some ClosedReason.disk
fatal Failure.permission = some ClosedReason.permission
fatal Failure.configuration = some ClosedReason.configuration
fatal Failure.mods = some ClosedReason.mods
fatal Failure.unknown = some ClosedReason.unknown_failure
fatal retryable = none
fatal (load_failure shards) = none

abbrev pub target_in_flight : Option FixedTarget → Bool
target_in_flight none = false
target_in_flight (some target) = in_flight target.phase

-- `previous.shards.iter().any(|(name, saved)| saved.session_id != latest[name].session_id)`.
unfoldable pub sessions_differ : SavedRoom → SavedRoom → Fallible Bool
sessions_differ [] latest = ok false
sessions_differ ((name, saved) ∷ rest) latest = do
  current ← or_fail (lookup name latest) panic
  let others = sessions_differ rest latest
  if not (text_eq saved.session_id current.session_id) then ok true else others

-- The test of a pending retry against the current save.
unfoldable pub retry_differs : Option CurrentRetry → SavedRoom → Fallible Bool
retry_differs none latest = ok false
retry_differs (some previous) latest =
    if not (same_texts (keys previous.shards) (keys latest))
    then ok true
    else sessions_differ previous.shards latest

-- `latest.get(name).filter(…)`.
unfoldable pub failed_shard : String → FailedLoad → SavedRoom → Option SavedShard
failed_shard name failure latest = elim (lookup name latest) [
  | none ↦ none
  | some saved ↦
      if text_eq saved.session_id failure.session_id && text_eq saved.world_file failure.world_file
      then some saved
      else none
]

-- The loop over the failed shards; `none` is a failure that the current save does not prove.
unfoldable pub earliest_failed : ℕ → Map FailedLoad → SavedRoom → Option ℕ
earliest_failed earliest [] latest = some earliest
earliest_failed earliest ((name, failure) ∷ rest) latest = elim (failed_shard name failure latest) [
  | none ↦ none
  | some failed ↦ earliest_failed (min earliest failed.snapshot_id) rest latest
]

-- `failed_snapshot_id`: outside a load failure there is none, and an unproven one is an error.
unfoldable pub failed_snapshot : Failure → SavedRoom → Result ClosedReason (Option ℕ)
failed_snapshot (load_failure shards) latest =
    if is_empty shards
    then err ClosedReason.unproven_load_failure
    else elim (earliest_failed u64_max shards latest) [
      | none ↦ err ClosedReason.unproven_load_failure
      | some earliest ↦ ok (some earliest)
    ]
failed_snapshot failure latest = ok none

-- The reservation of a restart of the current save.
unfoldable pub reserve_retry : RecoveryState → SavedRoom → ℕ → Fallible (RecoveryState × Decision)
reserve_retry state latest now_ms =
    let used = state.restarts_used + 1 in
    let not_before = now_ms + retry_delay_ms in
    if ltb u64_max not_before
    then err (message "retry deadline overflow")
    else ok (
      record state {
        restarts_used = used;
        retry = some (record { not_before_ms = not_before; started = false; shards = latest });
      },
      retry_current used not_before latest,
    )

-- The rollback, once the restarts are used up.
unfoldable pub roll_back :
    RecoveryState → SavedRoom → Catalogs → Option ℕ → Fallible (RecoveryState × Decision)
roll_back state latest catalogs none = ok (close state ClosedReason.current_retries_exhausted)
roll_back state latest catalogs (some failed_snapshot_id) =
    if not (is_none state.target)
    then ok (close state ClosedReason.rollback_already_used)
    else elim (previous_target latest catalogs failed_snapshot_id) [
      | ok target ↦ ok (record state { retry = none; target = some target }, restore target false)
      | err (refused reason) ↦ ok (close state reason)
      | err panicked ↦ err panic
    ]

-- The part of `decide` behind the proof of what failed.
unfoldable pub answer :
    RecoveryState → SavedRoom → Catalogs → ℕ → Option ℕ → Fallible (RecoveryState × Decision)
answer state latest catalogs now_ms failed = do
  newest ← or_fail (maximum (ids latest)) panic
  oldest ← or_fail (minimum (ids latest)) panic
  if ltb max_snapshot_gap (newest - oldest)
      then ok (close state ClosedReason.snapshot_gap_exceeded)
      else if ltb state.restarts_used current_restarts
      then reserve_retry state latest now_ms
      else roll_back state latest catalogs failed

-- The part of `decide` behind the current save.
unfoldable pub weigh :
    RecoveryState → Failure → SavedRoom → Catalogs → ℕ → Fallible (RecoveryState × Decision)
weigh state failure latest catalogs now_ms = do
  differs ← retry_differs state.retry latest
  if differs
      then ok (close state ClosedReason.session_changed)
      else elim (failed_snapshot failure latest) [
        | err reason ↦ ok (close state reason)
        | ok failed ↦ answer state latest catalogs now_ms failed
      ]

-- The part of `decide` behind the failures that no restart can cure.
unfoldable pub recover :
    RecoveryState → Failure → List String → Catalogs → ℕ → Fallible (RecoveryState × Decision)
recover state failure required catalogs now_ms =
    if target_in_flight state.target
    then ok (close state ClosedReason.recovery_target_failed)
    else do
      found ← settled (latest_room required catalogs)
      elim found [
        | none ↦ ok (close state ClosedReason.unproven_snapshots)
        | some latest ↦ weigh state failure latest catalogs now_ms
      ]

unfoldable pub decide :
    RecoveryState → Failure → List String → Catalogs → ℕ → Fallible (RecoveryState × Decision)
decide state failure required catalogs now_ms = elim state.closed [
  | some reason ↦ ok (state, stay_closed reason)
  | none ↦ elim (fatal failure) [
    | some reason ↦ ok (close state reason)
    | none ↦ recover state failure required catalogs now_ms
  ]
]
