-- ===== src/Policy/Plan.antt =====
-- `Policy::plan` of crates/dst-server/src/policy.rs: one tick of the room policy. An error leaves
-- the stored state alone, since the Agent stores only the state of a tick that succeeds.
pub mod Parts
pub mod Keeps
pub mod Safety
pub mod Openings
use dst_server.Base.{
  ℕ, ◌+◌, ◌-◌, ◌*◌, ◌/◌, ◌≤◌, ◌<◌, String, Bool, true, false, not, ◌&&◌, ◌||◌, List, [], ◌∷◌,
  Option, none, some, Result, ok, err, message, Fallible, ◌>>=◌, ◌>>◌, Map, is_some_and, is_none_or,
  decimal, ◌⧺◌, ltb, leb, ◌==◌, if◌then◌else◌,
}
use dst_server.Policy.Time.{Zone, Chrono, seconds, hours}
use dst_server.Policy.Inputs.{
  Inputs, Action, start, stop, announce, update_mods, regenerate, StopReason, validate_inputs,
  reliable_empty,
}
use dst_server.Policy.Schedule.{Policy, ScheduleState, zone, chosen, schedule_at}
use dst_server.Policy.Mods.{
  ModMaintenance, ModPhase, idle, pending, idle_mods, is_failed, is_idle, is_announcing,
  is_stopping, request, action,
}
use dst_server.Policy.State.{Activity, ClosingNotice, PolicyState, validate_state, clock_changed}
use dst_server.Policy.Activity.{observe_activity}

pub record Plan : Type 0 where
  pub schedule : ScheduleState
  pub new_opening : Option ℕ
  pub action : Option Action
  pub fault : Option String

-- How long an empty world of a day is kept.
unfoldable pub retention : ℕ → ℕ
retention day = hours (
    if leb day 8
    then 6
    else if leb day 30
    then 24
    else if leb day 70
    then 36
    else if leb day 280
    then 72
    else 168)

abbrev pub same_option : Option ℕ → Option ℕ → Bool
same_option none none = true
same_option (some a) (some b) = a == b
same_option _ _ = false

-- The opening of the schedule, where it is one that the state has not seen.
unfoldable pub new_opening_of : PolicyState → ScheduleState → Bool → Option ℕ
new_opening_of s schedule changed = elim schedule.opening_id [
  | none ↦ none
  | some opening ↦
      if not changed
        && (not (same_option s.current_opening (some opening))
            && is_none_or s.last_opening (λ previous. ltb previous opening))
      then some opening
      else none
]

-- What an opening does to the state.
unfoldable pub enter_opening : PolicyState → Option ℕ → Option ℕ → Fallible PolicyState
enter_opening s opening_id none = ok (record s { current_opening = opening_id })
enter_opening s opening_id (some opening) =
    if is_failed s.mods.phase
    then (request s.mods >>= λ mods.
        ok (record s { current_opening = opening_id; last_opening = some opening; mods = mods }))
    else ok (record s { current_opening = opening_id; last_opening = some opening })

-- Outdated mods start a maintenance, and one that nobody asked for ends without automatic updates.
unfoldable pub observe_mods : Bool → ModMaintenance → Bool → ModMaintenance
observe_mods automatic m outdated =
    let phase =
      if automatic && (outdated && (not m.observed_outdated && is_idle m.phase))
      then pending
      else m.phase in
    if not automatic && (not m.manual && m.attempts == 0)
    then idle_mods outdated
    else record m { phase = phase; observed_outdated = outdated }

-- `Action::Announce` of a closing in so many minutes; `next` is the text of the next opening.
unfoldable pub closing_message : ℕ → String → String
closing_message minutes next = "本房间将在约 " ⧺ decimal minutes ⧺ " 分钟后定时关闭，请提前安排游戏进度。" ⧺ next

abbrev pub next_text : Option ℕ → Zone → String
next_text none z = ""
next_text (some time) z = "下次开放时间：" ⧺ z.clock time ⧺ "。"

abbrev pub same_notice : Option ClosingNotice → ℕ → ℕ → Bool
same_notice none close minutes = false
same_notice (some n) close minutes = n.close == close && n.minutes == minutes

abbrev pub Ticked : Type 0
Ticked = PolicyState × Option Action

-- Behind the guards of `closing_notice`.
unfoldable pub notify_closing : Chrono → Policy → PolicyState → ℕ → ℕ → Fallible Ticked
notify_closing c p s close minutes =
    if same_notice s.last_closing_notice close minutes then ok (s, none) else do
      later ← schedule_at c p close
      z ← zone c p
      ok (
        record s { last_closing_notice = some (record { close = close; minutes = minutes }) },
        some (announce (closing_message minutes (next_text later.next_change (chosen c z)))),
      )

-- The minutes left, rounded up. A closing in the past gives 0 here and a number below 1 in the
-- source, which both announce nothing.
abbrev pub minutes_left : ℕ → ℕ → ℕ
minutes_left close now = ((close - now) / 1000000000 + 59) / 60

unfoldable pub closing_notice :
    Chrono → Policy → PolicyState → ℕ → Inputs → ScheduleState → Fallible Ticked
closing_notice c p s now i schedule = elim schedule.next_change [
  | none ↦ ok (s, none)
  | some close ↦
      if not i.game_running
        || (not i.all_ready
            || not (leb 1 (minutes_left close now) && leb (minutes_left close now) 8))
      then ok (s, none)
      else notify_closing c p s close (minutes_left close now)
]

abbrev with_mods : PolicyState → ModMaintenance → PolicyState
with_mods s m = record s { mods = m }

-- The arm of a closed schedule.
unfoldable pub tick_closed : PolicyState → Inputs → Ticked
tick_closed s i =
    let paused =
      if is_announcing s.mods.phase || is_stopping s.mods.phase
      then with_mods s (record (s.mods) { phase = pending })
      else s in
    (
      paused,
      if i.game_running && not i.writes_in_progress
          then some (stop StopReason.schedule none)
          else none,
    )

-- The arm of a maintenance in progress; within a minute of the closing it waits.
unfoldable pub tick_mods :
    Chrono → Policy → PolicyState → ℕ → Inputs → ScheduleState → Fallible Ticked
tick_mods c p s now i schedule =
    if is_some_and schedule.next_change (λ close. leb (close - now) (seconds 60))
    then (let paused =
          if is_announcing s.mods.phase
          then with_mods s (record (s.mods) { phase = pending })
          else s in
        if not i.busy then closing_notice c p paused now i schedule else ok (paused, none))
    else if not i.busy
    then (action c s.mods now i >>= λ (m, a). ok (with_mods s m, a))
    else ok (s, none)

-- Whether the world has been empty for longer than its retention.
unfoldable pub expired : ℕ → Inputs → Option ℕ → Option Activity → Bool
expired now i none activity = false
expired now i (some day) none = false
expired now i (some day) (some a) =
    not a.interrupted && (reliable_empty i && ltb (retention day) (now - a.last_active_at))

-- The regeneration, which renews the activity first.
unfoldable pub tick_regenerate : PolicyState → ℕ → Option Activity → Ticked
tick_regenerate s now none = (s, none)
tick_regenerate s now (some a) =
    (record s { activity = some (record a { last_active_at = now }) }, some (regenerate a.sessions))

-- The arm of a running room with nothing to maintain.
unfoldable pub tick_running :
    Chrono → Policy → PolicyState → ℕ → Inputs → ScheduleState → Fallible Ticked
tick_running c p s now i schedule =
    if p.idle_regeneration && (i.all_ready && expired now i i.master_day s.activity)
    then ok (tick_regenerate s now s.activity)
    else closing_notice c p s now i schedule

-- The choice of the action.
unfoldable pub choose : Chrono → Policy → PolicyState → ℕ → Inputs → ScheduleState → Fallible Ticked
choose c p s now i schedule =
    if not schedule.is_open
    then ok (tick_closed s i)
    else if i.writes_in_progress || i.faulted
    then ok (s, none)
    else if is_failed s.mods.phase
    then ok (s, if i.game_running then some (stop StopReason.mod_failure none) else none)
    else if not (is_idle s.mods.phase)
    then tick_mods c p s now i schedule
    else if i.busy
    then ok (s, none)
    else if not i.game_running
    then ok (s, some start)
    else tick_running c p s now i schedule

-- The state behind the observations of a tick, with the new opening.
unfoldable pub observe :
    Chrono → Policy → PolicyState → ℕ → Inputs → ScheduleState → Fallible (PolicyState × Option ℕ)
observe c p s now i schedule = do
  (timed, changed) ← clock_changed c s now i.monotonic
  let opening = new_opening_of timed schedule changed
  entered ← enter_opening timed schedule.opening_id opening
  observed ←
      observe_activity c
        (with_mods entered (observe_mods p.mod_auto_update entered.mods i.mods_outdated)) now i
        changed
  ok (observed, opening)

unfoldable pub plan : Chrono → Policy → PolicyState → ℕ → Inputs → Fallible (PolicyState × Plan)
plan c p s now i = do
  validate_state s
  validate_inputs i
  schedule ← schedule_at c p now
  (observed, opening) ← observe c p s now i schedule
  let fault =
      if is_failed observed.mods.phase then some "mod update failed after three attempts" else none
  (final, action) ← choose c p observed now i schedule
  ok (final, record { schedule = schedule; new_opening = opening; action = action; fault = fault })
