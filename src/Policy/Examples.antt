-- ===== src/Policy/Examples.antt =====
-- Concrete data for crates/dst-server/src/policy.rs, in a zone without changes of the clock. The
-- children run the code on it.
mod Hours
mod Ticks
use dst_server.Base.{
  ℕ, ◌+◌, ◌*◌, ◌/◌, ◌≤◌, ◌<◌, ◌≡◌, refl, String, Bool, true, false, Option, none, some, List, [],
  ◌∷◌, ok, err, arith, All, any, all, values, Holds, text_eq, if◌then◌else◌,
}
use dst_server.Base.Float.{F64, zero_f64}
use dst_server.Ranges.{Range}
use dst_server.Policy.Time.{Chrono, Zone, single, NaiveTime, seconds, hours}
use dst_server.Policy.Windows.{DailyWindow, merged_minutes, opens, window_opens}
use dst_server.Policy.Windows.Coverage.{IsTime, merged_minutes-opens}
use dst_server.Policy.Schedule.{
  Policy, ScheduleState, always_open, intervals, schedule_in, resolve_local,
}
use dst_server.Policy.Schedule.Boundary.{IsRight, schedule_in-IsRight}
use dst_server.Policy.Mods.{ModMaintenance, announcing, updating, pending, idle_mods, action}
use dst_server.Policy.Mods.Countdown.{count_down-notice, Reserves, action-Reserves}
use dst_server.Policy.Inputs.{Inputs, Presence, regenerate, announce, mod_message, reliable}
use dst_server.Policy.State.{
  Activity, PolicyState, initial, update_failed, finish_mod_update, validate_state,
}
use dst_server.Policy.Attempts.{
  Event, acts, fails, attempts, attempts_bounded, finish-cases, Finished,
}
use dst_server.Policy.Activity.{observed, active_since, is_occupied}
use dst_server.Policy.Activity.Bounds.{observed-last}
use dst_server.Policy.Plan.{Plan, plan, observe}
use dst_server.Policy.Plan.Keeps.{plan-valid}
use dst_server.Policy.Plan.Safety.{Allowed, plan-Allowed}
use dst_server.Policy.Plan.Openings.{Rises, openings, openings-Rises}

abbrev pub utc : Zone
utc = record {
  date_of = λ t. t / 86400000000000;
  from_local = λ m. single (m * 60000000000);
  clock = λ t. "12:00";
}

abbrev pub chrono : Chrono
chrono = record {
  last_instant = 8640000000000000000;
  dates = 100000;
  last_delta = 9223372036854775807;
  zones = λ name. if text_eq name "UTC" then some utc else none;
  local_zone = utc;
}

abbrev pub oclock : ℕ → NaiveTime
oclock hour = record { hour = hour; minute = 0; second = 0; nanosecond = 0 }

-- From eight in the evening to two in the morning, and from one to three.
abbrev pub windows : List DailyWindow
windows =
    record { start = oclock 20; end = oclock 2 } ∷ record { start = oclock 1; end = oclock 3 } ∷ []

abbrev pub day_at : ℕ → ℕ → ℕ
day_at day hour = hours (day * 24 + hour)

-- The openings round the day 10.
abbrev pub found : List Range
found =
    (day_at 8 20, day_at 9 3)
    ∷ (day_at 9 20, day_at 10 3)
    ∷ (day_at 10 20, day_at 11 3)
    ∷ (day_at 11 20, day_at 12 3)
    ∷ (day_at 12 20, day_at 13 3)
    ∷ (day_at 13 20, day_at 14 3)
    ∷ []

abbrev pub evening : ScheduleState
evening = record {
  is_open = true;
  opening_id = some (day_at 10 20);
  next_change = some (day_at 11 3);
}

abbrev pub quiet : Presence
quiet = record {
  session_id = "MASTER";
  observation = "one";
  reliable = true;
  client_count = 0;
  player_count = 0;
  idle_seconds = zero_f64;
  observed_seconds = zero_f64;
}

abbrev pub empty_room : Inputs
empty_room = record {
  game_running = true;
  all_ready = true;
  clean_stop_in_progress = false;
  busy = false;
  writes_in_progress = false;
  faulted = false;
  mods_outdated = false;
  expected_shards = "Master" ∷ [];
  presence = ("Master", quiet) ∷ [];
  master_day = some 5;
  monotonic = none;
}

abbrev pub stopped_room : Inputs
stopped_room = record empty_room { game_running = false; all_ready = false }

-- Empty since three o'clock on day 10.
abbrev pub empty_since : ℕ → Activity
empty_since time = record {
  sessions = ("Master", "MASTER") ∷ [];
  observations = ("Master", "one") ∷ [];
  observed_seconds = ("Master", zero_f64) ∷ [];
  last_active_at = time;
  clean_shutdown = false;
  interrupted = false;
}

abbrev pub abandoned : PolicyState
abandoned = record initial { activity = some (empty_since (day_at 10 3)) }

abbrev pub always : Policy
always = record {
  timezone = "UTC";
  schedule = [];
  mod_auto_update = true;
  idle_regeneration = true;
}

abbrev pub nightly : Policy
nightly = record always { schedule = windows }

abbrev pub counting : ModMaintenance
counting = record (idle_mods true) { phase = announcing (seconds 100) (seconds 70) }

abbrev pub second_try : PolicyState
second_try = record initial { mods = record (idle_mods true) { phase = updating; attempts = 2 } }

abbrev pub waiting : PolicyState
waiting = record initial { mods = record (idle_mods true) { phase = pending } }

abbrev pub troubles : List Event
troubles =
    acts 0 stopped_room
    ∷ fails 0 "no network"
    ∷ acts (seconds 300) stopped_room
    ∷ fails (seconds 300) "no network"
    ∷ acts (seconds 600) stopped_room
    ∷ fails (seconds 600) "no network"
    ∷ acts (seconds 900) stopped_room
    ∷ []
