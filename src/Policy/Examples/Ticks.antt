-- ===== src/Policy/Examples/Ticks.antt =====
-- Ticks, mod maintenance and activity of crates/dst-server/src/policy.rs on concrete rooms.
use dst_server.Base.{
  ℕ, ◌+◌, ◌≤◌, ◌<◌, ◌≡◌, refl, ◌⊎◌, true, false, none, some, List, [], ◌∷◌, ok, arith, any, all,
  values, Holds,
}
use dst_server.Base.Float.{lt_f64, is_finite, le_f64, try_from_secs_f64}
use dst_server.Ranges.{sort, merge, push}
use dst_server.Policy.Time.{add_time, seconds}
use dst_server.Policy.Windows.{merged_minutes}
use dst_server.Policy.Schedule.{
  schedule_at, validate_policy, zone, validate_windows, date_intervals, window_interval, scan,
  always_open, intervals, schedule_in,
}
use dst_server.Policy.Mods.{retry, validate_mods, announcing, updating, idle_mods, action}
use dst_server.Policy.Mods.{notice_seconds}
use dst_server.Policy.Mods.Countdown.{next_after, count_down-notice, Reserves, action-Reserves}
use dst_server.Policy.Inputs.{
  Inputs, regenerate, announce, mod_message, reliable, reliable_empty, validate_inputs,
}
use dst_server.Policy.State.{
  clock_changed, shift_phase, skew_of, validate_activity, PolicyState, initial, update_failed,
  finish_mod_update, validate_state,
}
use dst_server.Policy.Attempts.{after, attempts, attempts_bounded, finish-cases, Finished}
use dst_server.Policy.Activity.{
  observed, last_active, last_active_by, continuous, grown, observe_activity, active_since,
  is_occupied,
}
use dst_server.Policy.Activity.Bounds.{is_quiet, observed-last}
use dst_server.Policy.Plan.{
  Plan, plan, observe, choose, closing_notice, enter_opening, expired, new_opening_of, observe_mods,
  retention, tick_closed, tick_running, tick_regenerate, tick_mods, notify_closing,
}
use dst_server.Policy.Plan.Keeps.{plan-valid}
use dst_server.Policy.Plan.Safety.{Allowed, plan-Allowed}
use dst_server.Policy.Plan.Openings.{Rises, openings, openings-Rises}
use dst_server.Policy.Examples.{
  chrono, day_at, empty_room, stopped_room, empty_since, abandoned, always, nightly, counting,
  second_try, waiting, troubles,
}

count_down-notice_example :
    (action chrono counting (seconds 71) empty_room
      ≡ ok (
        record counting {
          phase = announcing (seconds 100) (next_after (seconds 100) (seconds 71));
        },
        some (announce (mod_message (notice_seconds (seconds 100) (seconds 71)))),
      ))
    × (seconds 71 < next_after (seconds 100) (seconds 71))
    × (next_after (seconds 100) (seconds 71) ≤ seconds 100)
count_down-notice_example =
    count_down-notice chrono counting (seconds 71) (seconds 100) (seconds 70) empty_room refl refl
      (omega arith) (omega arith)

action-Reserves_example :
    Holds
      (Reserves second_try.mods stopped_room)
      (action chrono second_try.mods (seconds 71) stopped_room)
action-Reserves_example = action-Reserves chrono second_try.mods (seconds 71) stopped_room

attempts_bounded_example : waiting.mods.attempts + attempts chrono waiting troubles ≤ 3
attempts_bounded_example = attempts_bounded chrono waiting troubles (omega arith)

-- All three attempts are used.
attempts_used : attempts chrono waiting troubles ≡ 3
unfolding attempts after action finish_mod_update add_time
attempts_used = refl

abbrev later_try : PolicyState
later_try = record initial {
  mods = record (idle_mods true) {
    phase = retry (seconds 310);
    attempts = 2;
    error = some "no network";
  };
}

later_eq :
    finish_mod_update chrono second_try (seconds 10) (update_failed "no network") ≡ ok later_try
unfolding finish_mod_update add_time
later_eq = refl

finish-cases_example :
    (second_try.mods.phase ≡ updating)
    × (later_try.mods.observed_outdated ≡ true)
    × Finished (seconds 10) second_try.mods later_try.mods (update_failed "no network")
finish-cases_example =
    finish-cases chrono second_try (seconds 10) (update_failed "no network") later_eq

empty_reliable : reliable empty_room ≡ true
unfolding reliable
empty_reliable = refl

still_empty :
    observed chrono abandoned.activity (day_at 10 8) empty_room
    ≡ ok (some (empty_since (day_at 10 3)))
unfolding observed reliable last_active last_active_by lt_f64 active_since continuous grown
still_empty = refl

observed-last_example :
    (active_since abandoned.activity empty_room.presence (day_at 10 8) ≤ day_at 10 3)
    × (day_at 10 3 ≤ day_at 10 8)
    × ((any is_occupied (values empty_room.presence) ≡ false) ⊎ (day_at 10 3 ≡ day_at 10 8))
    × ((all is_quiet (values empty_room.presence) ≡ false)
        ⊎ (day_at 10 3 ≡ active_since abandoned.activity empty_room.presence (day_at 10 8)))
observed-last_example =
    observed-last chrono abandoned.activity (day_at 10 8) empty_room empty_reliable still_empty

abbrev renewed : PolicyState
renewed = record abandoned {
  activity = some (empty_since (day_at 10 10));
  last_wall = some (day_at 10 10);
}

abbrev regeneration : Plan
regeneration = record {
  schedule = record { is_open = true; opening_id = none; next_change = none };
  new_opening = none;
  action = some (regenerate (("Master", "MASTER") ∷ []));
  fault = none;
}

plan_eq : plan chrono always abandoned (day_at 10 10) empty_room ≡ ok (renewed, regeneration)
unfolding plan validate_state validate_mods validate_activity is_finite le_f64 validate_inputs
    try_from_secs_f64 schedule_at validate_policy schedule_in always_open merged_minutes sort
    observe clock_changed skew_of lt_f64 active_since continuous grown last_active last_active_by
    observe_activity observed reliable reliable_empty choose closing_notice enter_opening expired
    new_opening_of observe_mods retention tick_closed tick_running tick_regenerate zone
    validate_windows
plan_eq = refl

plan-valid_example : validate_state renewed ≡ ok tt
plan-valid_example = plan-valid chrono always abandoned (day_at 10 10) empty_room plan_eq

plan-Allowed_example :
    (t : PolicyState) × (observe chrono always abandoned
        (day_at 10 10)
        empty_room
        regeneration.schedule
      ≡ ok (t, none))
    × Allowed always t (day_at 10 10) empty_room regeneration.schedule regeneration.action
plan-Allowed_example = plan-Allowed chrono always abandoned (day_at 10 10) empty_room plan_eq

abbrev nights : List (ℕ × Inputs)
nights =
    (day_at 10 21, stopped_room)
    ∷ (day_at 11 1, empty_room)
    ∷ (day_at 10 22, empty_room)
    ∷ (day_at 11 21, empty_room)
    ∷ []

openings-Rises_example : Rises none (openings chrono nightly initial nights)
openings-Rises_example = openings-Rises chrono nightly initial nights

-- Two evenings are reported, though the clock goes back between them.
openings_run : openings chrono nightly initial nights ≡ day_at 10 20 ∷ day_at 11 20 ∷ []
unfolding plan validate_state validate_mods validate_activity is_finite le_f64 validate_inputs
    try_from_secs_f64 schedule_at validate_policy schedule_in always_open merged_minutes sort
    observe clock_changed skew_of lt_f64 active_since continuous grown last_active last_active_by
    observe_activity observed reliable reliable_empty choose closing_notice enter_opening expired
    new_opening_of observe_mods retention tick_closed tick_running tick_regenerate zone
    validate_windows openings intervals date_intervals window_interval scan merge push tick_mods
    notify_closing shift_phase
openings_run = refl
