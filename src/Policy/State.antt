-- ===== src/Policy/State.antt =====
-- The policy state that crates/dst-server/src/policy.rs persists for a room, its validation, the
-- operations on it outside a tick, and the detection of a changed clock.
use dst_server.Base.{
  ℕ, ◌-◌, String, Bool, true, false, not, ◌&&◌, ◌||◌, Option, none, some, ok, err, message,
  Fallible, ◌>>=◌, ◌>>◌, ensure, or_fail, Map, keys, values, all, is_empty, same_texts,
  text_is_empty, ltb, leb, ◌==◌, if◌then◌else◌,
}
use dst_server.Base.Int.{ℤ, pos, pos_part, neg_part, sub_ℕ}
use dst_server.Base.Float.{F64, is_finite, le_f64, zero_f64}
use dst_server.Policy.Time.{Chrono, seconds, checked_add_signed, add_time, sub_delta}
use dst_server.Policy.Mods.{
  ModMaintenance, ModPhase, announcing, retry, failed, idle_mods, validate_mods, is_updating,
  request, mod_attempts,
}

-- `last_active_at` is an instant.
pub record Activity : Type 0 where
  pub sessions : Map String
  pub observations : Map String
  pub observed_seconds : Map F64
  pub last_active_at : ℕ
  pub clean_shutdown : Bool
  pub interrupted : Bool

pub record ClosingNotice : Type 0 where
  pub close : ℕ
  pub minutes : ℕ

pub record PolicyState : Type 0 where
  pub version : ℕ
  pub current_opening : Option ℕ
  pub last_opening : Option ℕ
  pub activity : Option Activity
  pub mods : ModMaintenance
  pub last_closing_notice : Option ClosingNotice
  pub last_wall : Option ℕ
  pub last_monotonic : Option ℕ

-- `PolicyState::default()`.
abbrev pub initial : PolicyState
initial = record {
  version = 1;
  current_opening = none;
  last_opening = none;
  activity = none;
  mods = idle_mods false;
  last_closing_notice = none;
  last_wall = none;
  last_monotonic = none;
}

abbrev pub full : String → Bool
full value = not (text_is_empty value)

abbrev pub valid_observed : F64 → Bool
valid_observed value = is_finite value && le_f64 zero_f64 value

unfoldable pub validate_activity : Option Activity → Fallible (Unit {0})
validate_activity none = ok tt
validate_activity (some a) = do
  ensure
      (not (is_empty a.sessions)
        && (same_texts (keys a.sessions) (keys a.observations)
            && same_texts (keys a.sessions) (keys a.observed_seconds)))
      "activity shard identities differ"
  ensure (all full (values a.sessions) && all full (values a.observations))
      "activity identities cannot be empty"
  ensure (all valid_observed (values a.observed_seconds)) "invalid activity observation duration"

unfoldable pub validate_state : PolicyState → Fallible (Unit {0})
validate_state s = do
  ensure (s.version == 1) "unsupported policy state version"
  validate_mods s.mods
  validate_activity s.activity

unfoldable pub record_clean_shutdown : PolicyState → PolicyState
record_clean_shutdown s = elim s.activity [
  | none ↦ s
  | some a ↦
      if not a.interrupted
      then record s { activity = some (record a { clean_shutdown = true }) }
      else s
]

-- `Result<(), String>` of an updater.
pub data UpdateOutcome : Type 0 where
  updated : UpdateOutcome
  update_failed : String → UpdateOutcome

-- The arms of `finish_mod_update`. `MOD_RETRY_DELAY` is 300 seconds.
unfoldable pub finish : Chrono → ℕ → ModMaintenance → UpdateOutcome → Fallible ModMaintenance
finish c now m updated = ok (idle_mods m.observed_outdated)
finish c now m (update_failed error) =
    if leb mod_attempts m.attempts then ok (record m { error = some error; phase = failed }) else do
      not_before ← add_time c now (seconds 300)
      ok (record m { error = some error; phase = retry not_before })

unfoldable pub finish_mod_update : Chrono → PolicyState → ℕ → UpdateOutcome → Fallible PolicyState
unfolding finish
finish_mod_update c s now outcome = do
  ensure (is_updating s.mods.phase) "no mod update is running"
  mods ← finish c now s.mods outcome
  ok (record s { mods = mods })

abbrev pub interrupt_activity : Option Activity → Option Activity
interrupt_activity none = none
interrupt_activity (some a) =
    if not a.clean_shutdown then some (record a { interrupted = true }) else some a

unfoldable pub resume_after_restart : Chrono → PolicyState → ℕ → Fallible PolicyState
resume_after_restart c s now = do
  let cleared = record s { last_wall = none; last_monotonic = none }
  finished ←
      if is_updating s.mods.phase
      then finish_mod_update c cleared now (update_failed "previous mod update was interrupted")
      else ok cleared
  ok (record finished { activity = interrupt_activity finished.activity })

unfoldable pub queue_mod_update : PolicyState → Bool → Fallible PolicyState
queue_mod_update s resume_game = do
  mods ← request s.mods
  ok (record s { mods = record mods { manual = true; resume_game = resume_game } })

unfoldable pub request_mod_update : PolicyState → Fallible PolicyState
unfolding queue_mod_update
request_mod_update s = queue_mod_update s true

-- The skew of the wall clock against the monotonic one, and whether it ran backwards.
unfoldable pub skew_of : Chrono → PolicyState → ℕ → Option ℕ → Fallible (ℤ × Bool)
skew_of c s now monotonic = elim s.last_wall [
  | none ↦ ok (pos 0, false)
  | some previous ↦
      let elapsed = sub_ℕ now previous in
      let backwards = ltb now previous in
      let unmeasured : Fallible (ℤ × Bool) = ok (if backwards then elapsed else pos 0, backwards) in
      elim s.last_monotonic [
        | none ↦ unmeasured
        | some before ↦ elim monotonic [
          | none ↦ unmeasured
          | some after ↦
              if ltb c.last_delta (after - before)
              then err (message "monotonic interval is out of range")
              else (sub_delta c elapsed (pos (after - before)) >>= λ skew. ok (skew, backwards))
        ]
      ]
]

-- The countdown or the retry of a phase, moved with the clock.
unfoldable pub shift_phase : Chrono → ModPhase → ℤ → Fallible ModPhase
shift_phase c (announcing deadline next_notice) skew = do
  deadline' ← or_fail (checked_add_signed c deadline skew) (message "mod countdown is out of range")
  next_notice' ←
      or_fail (checked_add_signed c next_notice skew) (message "mod countdown is out of range")
  ok (announcing deadline' next_notice')
shift_phase c (retry not_before) skew = do
  not_before' ← or_fail (checked_add_signed c not_before skew) (message "mod retry is out of range")
  ok (retry not_before')
shift_phase c phase skew = ok phase

-- Outside the tolerance of `CHECK_INTERVAL`, 30 seconds.
abbrev pub is_jump : ℤ → Bool → Bool
is_jump skew backwards =
    backwards || (ltb (seconds 30) (neg_part skew) || ltb (seconds 30) (pos_part skew))

unfoldable pub clock_changed : Chrono → PolicyState → ℕ → Option ℕ → Fallible (PolicyState × Bool)
clock_changed c s now monotonic = do
  (skew, backwards) ← skew_of c s now monotonic
  let changed = is_jump skew backwards
  phase ← if changed then shift_phase c s.mods.phase skew else ok s.mods.phase
  ok (
    record s {
      mods = record (s.mods) { phase = phase };
      last_wall = some now;
      last_monotonic = monotonic;
    },
    changed,
  )
