-- ===== src/Policy/Examples/Hours.antt =====
-- The opening hours of crates/dst-server/src/policy.rs on concrete windows.
use dst_server.Base.{
  ℕ, ◌+◌, ◌*◌, ◌/◌, ◌≡◌, ◌≢◌, refl, true, false, ok, arith, All, any, leb, ltb, ◌&&◌, ◌==◌,
  if◌then◌else◌,
}
use dst_server.Policy.Schedule.Local.{IsResolved, resolve_local-resolves}
use dst_server.Policy.Time.{Zone, single, ambiguous, gap, hours}
use dst_server.Policy.Windows.{merged_minutes, opens, window_opens}
use dst_server.Policy.Windows.Coverage.{IsTime, merged_minutes-opens}
use dst_server.Policy.Schedule.{always_open, intervals, schedule_in, resolve_local}
use dst_server.Policy.Schedule.Boundary.{IsRight, schedule_in-IsRight}
use dst_server.Policy.Examples.{utc, chrono, windows, day_at, found, evening}
use dst_server.Policy.Schedule.{date_intervals, window_interval, scan}
use dst_server.Ranges.{sort, push, merge}

windows-IsTime : All IsTime windows
windows-IsTime = (
  record {
    start_hour = omega arith;
    start_minute = omega arith;
    end_hour = omega arith;
    end_minute = omega arith;
  },
  (
    record {
      start_hour = omega arith;
      start_minute = omega arith;
      end_hour = omega arith;
      end_minute = omega arith;
    },
    tt,
  ),
)

merged_minutes-opens_example :
    any (opens 30) (merged_minutes windows) ≡ any (window_opens 30) windows
merged_minutes-opens_example = merged_minutes-opens windows 30 windows-IsTime (omega arith)

windows_differ : always_open (merged_minutes windows) ≡ false
unfolding always_open merged_minutes sort push
windows_differ = refl

found_eq : intervals chrono utc (day_at 10 21) (merged_minutes windows) ≡ ok found
unfolding intervals date_intervals merged_minutes sort push window_interval
found_eq = refl

evening_eq : schedule_in chrono windows (day_at 10 21) utc ≡ ok evening
unfolding schedule_in always_open merged_minutes sort push intervals date_intervals window_interval
    scan merge
evening_eq = refl

schedule_in-IsRight_example : IsRight (day_at 10 21) found evening
schedule_in-IsRight_example =
    schedule_in-IsRight chrono windows (day_at 10 21) utc found windows_differ found_eq evening_eq

-- A zone that skips the minutes from 600 to 602, and where the minute 603 occurs twice.
abbrev changing : Zone
changing = record {
  date_of = λ t. t / 86400000000000;
  from_local = λ m.
      if leb 600 m && ltb m 603
      then gap
      else if m == 603
      then ambiguous (hours 10) (hours 11)
      else single (m * 60000000000);
  clock = λ t. "12:00";
}

resolved_start : resolve_local chrono changing 601 false ≡ ok (hours 10)
unfolding resolve_local
resolved_start = refl

resolved_end : resolve_local chrono changing 601 true ≡ ok (hours 11)
unfolding resolve_local
resolved_end = refl

found_again : changing.from_local (601 + 2) ≢ gap
found_again e = cc

resolve_local-resolves_example :
    (v : ℕ) × ((resolve_local chrono changing 601 true ≡ ok v) × IsResolved changing 601 true v)
resolve_local-resolves_example =
    resolve_local-resolves chrono changing true 601 2 (omega arith) (omega arith) found_again
