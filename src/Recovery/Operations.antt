-- ===== src/Recovery/Operations.antt =====
-- The operations of crates/dst-server/src/recovery.rs on the persisted state. Each reads the
-- stored state, changes it, and stores it again only if the change succeeds; the JSON document of
-- the room is taken to give back the state that was put in it.
use dst_server.Base.{
  ℕ, String, Bool, true, false, not, ◌&&◌, ◌||◌, Option, none, some, List, ok, err, message, panic,
  Fallible, ◌>>=◌, ◌>>◌, ensure, or_fail, text_eq, ltb, leb, is_none_or, is_some_and, if◌then◌else◌,
  [], ◌∷◌,
}
use dst_server.Recovery.State.{
  Catalogs, SavedRoom, Failure, retryable, ClosedReason, FixedTarget, CurrentRetry, RecoveryState,
  TargetPhase, Decision, retry_current, restore, stay_closed, preparing, starting, ready, in_flight,
  is_preparing, is_ready, is_none, close, reset, validate, stable_reset,
}
use dst_server.Recovery.Snapshots.{
  refused, panicked, settled, latest_room, same_shard, verify_replay,
}
use dst_server.Recovery.Decide.{decide}

-- What is stored is validated when it is read and again before it is written.
unfoldable pub update :
    {T : Type 0}
    → (RecoveryState → Fallible (RecoveryState × T))
    → RecoveryState
    → Fallible (RecoveryState × T)
update change stored = do
  validate stored
  (state, result) ← change stored
  validate state
  ok (state, result)

unfoldable pub on_failure :
    Failure → List String → Catalogs → ℕ → RecoveryState → Fallible (RecoveryState × Decision)
unfolding update
on_failure failure required catalogs now_ms =
    update (λ state. decide state failure required catalogs now_ms)

-- `==` on saved rooms.
unfoldable pub same_room : SavedRoom → SavedRoom → Bool
same_room [] [] = true
same_room ((j, a) ∷ m) ((k, b) ∷ n) = text_eq j k && (same_shard a b && same_room m n)
same_room _ _ = false

-- The arm of a target in flight.
unfoldable pub resume_target :
    RecoveryState
    → FixedTarget
    → List String
    → Catalogs
    → Fallible (RecoveryState × Option Decision)
resume_target state target required catalogs = elim (verify_replay target required catalogs) [
  | err (refused reason) ↦ let (closed, decision) = close state reason in ok (closed, some decision)
  | err panicked ↦ err panic
  | ok _ ↦
      let again = record target { phase = preparing } in
      ok (record state { target = some again }, some (restore again true))
]

-- The arm of a pending retry.
unfoldable pub resume_retry :
    RecoveryState
    → CurrentRetry
    → List String
    → Catalogs
    → ℕ
    → Fallible (RecoveryState × Option Decision)
resume_retry state retry required catalogs now_ms =
    if retry.started
    then (decide state retryable required catalogs now_ms >>= λ (next, decision).
        ok (next, some decision))
    else do
      latest ← settled (latest_room required catalogs)
      if is_some_and latest (λ room. same_room room retry.shards)
          then ok (state, some (retry_current state.restarts_used retry.not_before_ms retry.shards))
          else let (closed, decision) = close state ClosedReason.current_save_changed in
            ok (closed, some decision)

unfoldable pub resume_rest :
    RecoveryState
    → Option CurrentRetry
    → List String
    → Catalogs
    → ℕ
    → Fallible (RecoveryState × Option Decision)
resume_rest state none required catalogs now_ms = ok (state, none)
resume_rest state (some retry) required catalogs now_ms =
    resume_retry state retry required catalogs now_ms

unfoldable pub resume :
    RecoveryState
    → Option ClosedReason
    → Option FixedTarget
    → List String
    → Catalogs
    → ℕ
    → Fallible (RecoveryState × Option Decision)
resume state (some reason) target required catalogs now_ms = ok (state, some (stay_closed reason))
resume state none none required catalogs now_ms =
    resume_rest state state.retry required catalogs now_ms
resume state none (some target) required catalogs now_ms =
    if in_flight target.phase
    then resume_target state target required catalogs
    else resume_rest state state.retry required catalogs now_ms

unfoldable pub resume_pending :
    List String → Catalogs → ℕ → RecoveryState → Fallible (RecoveryState × Option Decision)
unfolding update resume resume_rest
resume_pending required catalogs now_ms =
    update (λ state. resume state state.closed state.target required catalogs now_ms)

unfoldable pub start_retry : ℕ → RecoveryState → Fallible (RecoveryState × Unit {0})
start_retry now_ms state = do
  retry ← or_fail state.retry (message "no current-save retry is pending")
  ensure (not retry.started && (leb retry.not_before_ms now_ms && is_none state.closed))
      "retry is not ready to start"
  ok (record state { retry = some (record retry { started = true }) }, tt)

unfoldable pub begin_current_retry : ℕ → RecoveryState → Fallible (RecoveryState × Unit {0})
unfolding update start_retry
begin_current_retry now_ms = update (start_retry now_ms)

unfoldable pub prepare_target : RecoveryState → Fallible (RecoveryState × Unit {0})
prepare_target state = do
  ensure (is_none state.closed) "room is closed after failure"
  target ← or_fail state.target (message "no recovery target")
  ensure (is_preparing target.phase) "recovery is not preparing"
  ok (record state { target = some (record target { phase = starting }) }, tt)

unfoldable pub mark_prepared : RecoveryState → Fallible (RecoveryState × Unit {0})
unfolding update prepare_target
mark_prepared = update prepare_target

abbrev started_target : TargetPhase → Bool
started_target starting = true
started_target ready = true
started_target _ = false

unfoldable pub ready_target : Option FixedTarget → Fallible (Option FixedTarget)
ready_target none = ok none
ready_target (some target) = do
  ensure (started_target target.phase) "fixed target has not started"
  ok (some (record target { phase = ready }))

unfoldable pub settle : RecoveryState → Fallible (RecoveryState × Unit {0})
unfolding ready_target
settle state = do
  ensure (is_none state.closed) "closed room cannot become ready"
  ensure (is_none_or state.retry (λ retry. retry.started)) "reserved retry has not started"
  target ← ready_target state.target
  ok (record state { target = target; retry = none }, tt)

unfoldable pub mark_ready : RecoveryState → Fallible (RecoveryState × Unit {0})
unfolding update settle
mark_ready = update settle

unfoldable pub renew : RecoveryState → Fallible (RecoveryState × Bool)
renew state = do
  ensure (is_none state.closed && is_none state.retry) "room is not continuously ready"
  ensure (is_none_or state.target (λ target. is_ready target.phase)) "recovery remains unfinished"
  ok (reset state, true)

-- `continuous_ready` is in seconds.
unfoldable pub reset_after_stable : ℕ → RecoveryState → Fallible (RecoveryState × Bool)
unfolding update renew
reset_after_stable continuous_ready stored =
    if ltb continuous_ready stable_reset then ok (stored, false) else update renew stored

unfoldable pub open_window : ℕ → RecoveryState → Fallible (RecoveryState × Bool)
open_window window_start_ms state =
    if is_some_and state.last_open_window_ms (λ previous. leb window_start_ms previous)
    then ok (state, false)
    else ok (reset (record state { last_open_window_ms = some window_start_ms }), true)

unfoldable pub reset_for_open_window : ℕ → RecoveryState → Fallible (RecoveryState × Bool)
unfolding update open_window
reset_for_open_window window_start_ms = update (open_window window_start_ms)

unfoldable pub start_again : Bool → RecoveryState → Fallible (RecoveryState × Bool)
start_again always_open state =
    if not always_open || is_none state.closed then ok (state, false) else ok (reset state, true)

unfoldable pub explicit_start : Bool → RecoveryState → Fallible (RecoveryState × Bool)
unfolding update start_again
explicit_start always_open = update (start_again always_open)
