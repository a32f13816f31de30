-- ===== src/Policy/Schedule.antt =====
-- The opening hours of crates/dst-server/src/policy.rs: `Policy`, its validation, and the state of
-- the schedule at an instant.
pub mod Boundary
pub mod Local
use dst_server.Base.{
  ℕ, zero, suc, ◌+◌, ◌-◌, ◌*◌, ◌/◌, ◌%◌, ◌≤◌, ◌<◌, ◌≡◌, String, Bool, true, false, not, ◌&&◌, ◌||◌,
  List, [], ◌∷◌, ◌++◌, Option, none, some, Result, ok, err, message, Fallible, ◌>>=◌, ◌>>◌, ensure,
  or_fail, length, text_eq, max, min, ltb, leb, ◌==◌, if◌then◌else◌,
}
use dst_server.Ranges.{Range, sort, merge}
use dst_server.Policy.Time.{Zone, Chrono, LocalResult, single, ambiguous, gap}
use dst_server.Policy.Windows.{DailyWindow, validate_window, merged_minutes}

pub record Policy : Type 0 where
  pub timezone : String
  pub schedule : List DailyWindow
  pub mod_auto_update : Bool
  pub idle_regeneration : Bool

pub record ScheduleState : Type 0 where
  pub is_open : Bool
  pub opening_id : Option ℕ
  pub next_change : Option ℕ

-- The zone of the policy; the text "local" stands for that of the machine.
unfoldable pub zone : Chrono → Policy → Fallible (Option Zone)
zone c p = if text_eq p.timezone "local" then ok none else elim (c.zones p.timezone) [
  | none ↦ err (message "unknown IANA schedule timezone")
  | some z ↦ ok (some z)
]

unfoldable pub validate_windows : List DailyWindow → Fallible (Unit {0})
unfolding validate_window
validate_windows [] = ok tt
validate_windows (w ∷ ws) = do validate_window w; validate_windows ws

unfoldable pub validate_policy : Chrono → Policy → Fallible (Unit {0})
unfolding zone validate_windows
validate_policy c p = do
  _ ← zone c p
  ensure (leb (length p.schedule) 1440) "too many daily windows"
  validate_windows p.schedule

-- The loop over the minutes from a local time on, `rounds` of them left.
unfoldable pub resolve_from : Chrono → Zone → Bool → ℕ → ℕ → Fallible ℕ
resolve_from c z end zero candidate = err (message "cannot resolve local schedule boundary")
resolve_from c z end (suc rounds) candidate =
    let next = resolve_from c z end rounds (candidate + 1) in
    if leb (c.dates * 1440) candidate
    then err (message "schedule date is out of range")
    else elim (z.from_local candidate) [
      | single value ↦ ok value
      | ambiguous first second ↦ ok (if end then max first second else min first second)
      | gap ↦ next
    ]

unfoldable pub resolve_local : Chrono → Zone → ℕ → Bool → Fallible ℕ
unfolding resolve_from
resolve_local c z local end = resolve_from c z end 1441 local

-- One window of minutes on one date, as an interval of instants.
unfoldable pub window_interval : Chrono → Zone → ℕ → Range → Fallible Range
unfolding resolve_local
window_interval c z date (start, end) = do
  ensure (ltb start 1440) "invalid window start"
  let end_date = if leb end start || end == 1440 then date + 1 else date
  ensure (ltb end_date c.dates) "schedule date is out of range"
  first ← resolve_local c z (date * 1440 + start) false
  last ← resolve_local c z (end_date * 1440 + end % 1440) true
  ok (first, last)

-- The windows of one date, the nonempty ones of which are kept.
unfoldable pub date_intervals : Chrono → Zone → ℕ → List Range → Fallible (List Range)
date_intervals c z date [] = ok []
date_intervals c z date (w ∷ ws) = do
  interval ← window_interval c z date w
  rest ← date_intervals c z date ws
  ok (if ltb interval.0 interval.1 then interval ∷ rest else rest)

-- The dates from `today + k - 2` on, `rounds` of them.
unfoldable pub intervals_from : Chrono → Zone → ℕ → ℕ → ℕ → List Range → Fallible (List Range)
intervals_from c z today k zero windows = ok []
intervals_from c z today k (suc rounds) windows = do
  ensure (leb 2 (today + k) && ltb (today + k - 2) c.dates) "schedule date is out of range"
  first ← date_intervals c z (today + k - 2) windows
  rest ← intervals_from c z today (k + 1) rounds windows
  ok (first ++ rest)

-- The openings of the days from two before to three after the date of `now`.
unfoldable pub intervals : Chrono → Zone → ℕ → List Range → Fallible (List Range)
unfolding intervals_from
intervals c z now windows = intervals_from c z (z.date_of now) 0 6 windows

-- The loop over the merged intervals.
unfoldable pub scan : ℕ → List Range → Fallible ScheduleState
scan now [] = err (message "cannot determine the next schedule boundary")
scan now ((start, end) ∷ rest) =
    let later = scan now rest in
    if leb start now && ltb now end
    then ok (record { is_open = true; opening_id = some start; next_change = some end })
    else if ltb now start
    then ok (record { is_open = false; opening_id = none; next_change = some start })
    else later

-- `windows.is_empty() || windows == [(0, 1440)]`.
unfoldable pub always_open : List Range → Bool
always_open [] = true
always_open ((s, e) ∷ []) = s == 0 && e == 1440
always_open (_ ∷ _) = false

unfoldable pub schedule_in : Chrono → List DailyWindow → ℕ → Zone → Fallible ScheduleState
schedule_in c schedule now z =
    if always_open (merged_minutes schedule)
    then ok (record { is_open = true; opening_id = none; next_change = none })
    else do found ← intervals c z now (merged_minutes schedule); scan now (merge (sort found))

abbrev pub chosen : Chrono → Option Zone → Zone
chosen c none = c.local_zone
chosen c (some named) = named

unfoldable pub schedule_at : Chrono → Policy → ℕ → Fallible ScheduleState
schedule_at c p now = do
  validate_policy c p
  z ← zone c p
  schedule_in c p.schedule now (chosen c z)
