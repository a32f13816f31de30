-- ===== src/Recovery/State.antt =====
-- The data of crates/dst-server/src/recovery.rs, and the methods of `RecoveryState`.
use Prim.Native.String.{len}
use dst_server.Base.{
  ℕ, String, Bool, true, false, not, ◌&&◌, Option, none, some, List, ok, Fallible, ◌>>◌, ensure,
  Map, values, text_is_empty, any_control, is_empty, ltb, leb, ◌==◌, if◌then◌else◌, [], ◌∷◌,
}

abbrev pub current_restarts : ℕ
current_restarts = 2

abbrev pub max_snapshot_gap : ℕ
max_snapshot_gap = 3

-- `RETRY_DELAY` in milliseconds.
abbrev pub retry_delay_ms : ℕ
retry_delay_ms = 30000

-- `STABLE_RESET` in seconds.
abbrev pub stable_reset : ℕ
stable_reset = 1800

-- `lua::MAX_SAFE_INTEGER` and `u64::MAX`.
abbrev pub max_safe_integer : ℕ
max_safe_integer = 9007199254740991

abbrev pub u64_max : ℕ
u64_max = 18446744073709551615

pub record Snapshot : Type 0 where
  pub snapshot_id : ℕ
  pub world_file : Option String

pub record Catalog : Type 0 where
  pub session_id : String
  pub latest_world_file : String
  pub snapshots : List Snapshot

abbrev pub Catalogs : Type 0
Catalogs = Map Catalog

pub record SavedShard : Type 0 where
  pub session_id : String
  pub snapshot_id : ℕ
  pub world_file : String

abbrev pub SavedRoom : Type 0
SavedRoom = Map SavedShard

pub record FailedLoad : Type 0 where
  pub session_id : String
  pub world_file : String

pub data Failure : Type 0 where
  retryable : Failure
  load_failure : Map FailedLoad → Failure
  disk permission configuration mods unknown : Failure

pub data ClosedReason : Type 0 where
  disk permission configuration mods unknown_failure unproven_snapshots : ClosedReason
  session_changed snapshot_gap_exceeded current_save_changed : ClosedReason
  unproven_load_failure current_retries_exhausted rollback_already_used : ClosedReason
  no_previous_complete_snapshot recovery_target_failed : ClosedReason

pub data TargetPhase : Type 0 where
  preparing starting ready failed : TargetPhase

pub record FixedTarget : Type 0 where
  pub snapshot_id : ℕ
  pub shards : SavedRoom
  pub phase : TargetPhase

pub record CurrentRetry : Type 0 where
  pub not_before_ms : ℕ
  pub started : Bool
  pub shards : SavedRoom

pub record RecoveryState : Type 0 where
  pub restarts_used : ℕ
  pub last_open_window_ms : Option ℕ
  pub closed : Option ClosedReason
  pub retry : Option CurrentRetry
  pub target : Option FixedTarget

-- `RecoveryState::default()`.
abbrev pub fresh : RecoveryState
fresh = record {
  restarts_used = 0;
  last_open_window_ms = none;
  closed = none;
  retry = none;
  target = none;
}

pub data Decision : Type 0 where
  retry_current : ℕ → ℕ → SavedRoom → Decision
  restore : FixedTarget → Bool → Decision
  stay_closed : ClosedReason → Decision

abbrev pub is_none {ℓ} : {A : Type ℓ} → Option A → Bool
is_none none = true
is_none (some a) = false

-- `matches!(phase, Preparing | Starting)`.
abbrev pub in_flight : TargetPhase → Bool
in_flight preparing = true
in_flight starting = true
in_flight ready = false
in_flight failed = false

abbrev pub is_preparing : TargetPhase → Bool
is_preparing preparing = true
is_preparing _ = false

abbrev pub is_ready : TargetPhase → Bool
is_ready ready = true
is_ready _ = false

unfoldable pub valid_text : String → ℕ → Bool
valid_text value limit =
    not (text_is_empty value) && (leb (len value) limit && not (any_control value))

unfoldable pub verify_saved : SavedShard → Fallible (Unit {0})
verify_saved saved = do
  ensure (valid_text saved.session_id 128) "invalid session identity"
  ensure (ltb 0 saved.snapshot_id && leb saved.snapshot_id max_safe_integer)
      "invalid snapshot identity"
  ensure (valid_text saved.world_file 4096) "invalid native snapshot path"

unfoldable pub verify_all : List SavedShard → Fallible (Unit {0})
verify_all [] = ok tt
verify_all (saved ∷ rest) = do verify_saved saved; verify_all rest

-- The loop over a target's shards.
unfoldable pub verify_target : ℕ → List SavedShard → Fallible (Unit {0})
verify_target id [] = ok tt
verify_target id (saved ∷ rest) = do
  verify_saved saved
  ensure (saved.snapshot_id == id) "inconsistent recovery target"
  verify_target id rest

unfoldable pub validate_retry : ℕ → Option ClosedReason → Option CurrentRetry → Fallible (Unit {0})
validate_retry used closed none = ok tt
validate_retry used closed (some retry) = do
  ensure (ltb 0 used && (not (is_empty retry.shards) && is_none closed)) "invalid pending retry"
  verify_all (values retry.shards)

unfoldable pub validate_target : Option FixedTarget → Fallible (Unit {0})
validate_target none = ok tt
validate_target (some target) = do
  ensure (not (is_empty target.shards)) "empty recovery target"
  verify_target target.snapshot_id (values target.shards)

unfoldable pub validate : RecoveryState → Fallible (Unit {0})
validate state = do
  ensure (leb state.restarts_used current_restarts) "invalid recovery state"
  validate_retry state.restarts_used state.closed state.retry
  validate_target state.target

-- What `close` does to the target: one that is in flight has failed.
unfoldable pub fail_target : Option FixedTarget → Option FixedTarget
fail_target none = none
fail_target (some target) =
    if in_flight target.phase then some (record target { phase = failed }) else some target

unfoldable pub close : RecoveryState → ClosedReason → RecoveryState × Decision
unfolding fail_target
close state reason = (
  record state { closed = some reason; retry = none; target = fail_target state.target },
  stay_closed reason,
)

-- What `reset` does to the target: one that is ready is dropped, another one is prepared again.
unfoldable pub reset_target : Option FixedTarget → Option FixedTarget
reset_target none = none
reset_target (some target) =
    if is_ready target.phase then none else some (record target { phase = preparing })

unfoldable pub reset : RecoveryState → RecoveryState
unfolding reset_target
reset state = record state {
  restarts_used = 0;
  closed = none;
  retry = none;
  target = reset_target state.target;
}
