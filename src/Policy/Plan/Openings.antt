-- ===== src/Policy/Plan/Openings.antt =====
-- The openings that the ticks of crates/dst-server/src/policy.rs report as new.
use dst_server.Base.{
  ℕ, ◌<◌, ◌≡◌, refl, Bool, List, [], ◌∷◌, Option, none, some, ok, err, Fallible, Holds, Holds-ok,
  arith,
}
use dst_server.Policy.Time.{Chrono}
use dst_server.Policy.Inputs.{Inputs}
use dst_server.Policy.Schedule.{Policy, ScheduleState}
use dst_server.Policy.State.{PolicyState, clock_changed}
use dst_server.Policy.Activity.{observe_activity}
use dst_server.Policy.Plan.Parts.{plan-Parts}
use dst_server.Policy.Plan.{
  Plan, Ticked, new_opening_of, enter_opening, closing_notice, notify_closing, tick_closed,
  tick_mods, tick_regenerate, tick_running, choose, observe, plan,
}

-- The last opening on record, and whether an opening is later.
abbrev pub IsLater : Option ℕ → ℕ → Type 0
IsLater none opening = Unit
IsLater (some previous) opening = previous < opening

abbrev Enters : Option ℕ → Option ℕ → Option ℕ → Type 0
Enters before after none = after ≡ before
Enters before after (some opening) = (after ≡ some opening) × IsLater before opening

enter_opening-Enters :
    (s : PolicyState) (schedule : ScheduleState) (changed : Bool)
    → Holds
        (λ (t : PolicyState).
          Enters s.last_opening t.last_opening (new_opening_of s schedule changed))
        (enter_opening s schedule.opening_id (new_opening_of s schedule changed))
unfolding enter_opening new_opening_of
enter_opening-Enters s schedule changed = ground arith

clock_changed-opening :
    (c : Chrono) (s : PolicyState) (now : ℕ) (m : Option ℕ)
    → Holds (λ r. r.0.last_opening ≡ s.last_opening) (clock_changed c s now m)
unfolding clock_changed
clock_changed-opening c s now m = ground arith

observe-Enters :
    (c : Chrono) (p : Policy) (s : PolicyState) (now : ℕ) (i : Inputs) (schedule : ScheduleState)
    → Holds (λ r. Enters s.last_opening r.0.last_opening r.1) (observe c p s now i schedule)
unfolding observe observe_activity
observe-Enters c p s now i schedule =
    grind (arith, clock_changed-opening c s now i.monotonic, enter_opening-Enters)

module _ (c : Chrono) (p : Policy) (s : PolicyState) (now : ℕ) (i : Inputs)
    (schedule : ScheduleState) where
  choose-opening :
      Holds (λ (r : Ticked). r.0.last_opening ≡ s.last_opening) (choose c p s now i schedule)
  unfolding choose tick_closed tick_running tick_regenerate tick_mods closing_notice notify_closing
  choose-opening = ground arith

abbrev pub report : Option ℕ → List ℕ → List ℕ
report none later = later
report (some opening) later = opening ∷ later

-- A history of ticks: each with its time and its inputs. A tick that fails leaves the state.
unfoldable pub openings : Chrono → Policy → PolicyState → List (ℕ × Inputs) → List ℕ
openings c p s [] = []
openings c p s ((now, i) ∷ ticks) = elim (plan c p s now i) [
  | err e ↦ openings c p s ticks
  | ok (s', r) ↦ report r.new_opening (openings c p s' ticks)
]

-- A list that rises strictly, from above the last opening on record.
abbrev pub Rises : Option ℕ → List ℕ → Type 0
Rises last [] = Unit
Rises last (o ∷ os) = IsLater last o × Rises (some o) os

plan-Enters :
    (c : Chrono) (p : Policy) (s : PolicyState) (now : ℕ) (i : Inputs) {s' : PolicyState} {r : Plan}
    → plan c p s now i ≡ ok (s', r)
    → Enters s.last_opening s'.last_opening r.new_opening
plan-Enters c p s now i {s'} {r} h =
    let parts = plan-Parts c p s now i h in
    let t = parts.observed in
    let kept : s'.last_opening ≡ t.last_opening =
      Holds-ok (λ (x : Ticked). x.0.last_opening ≡ t.last_opening)
        (choose-opening c p t now i r.schedule) parts.chosen in
    rw kept (
      Holds-ok (λ (x : PolicyState × Option ℕ). Enters s.last_opening x.0.last_opening x.1)
        (observe-Enters c p s now i r.schedule) parts.observing)

report-Rises :
    (before after o : Option ℕ) (later : List ℕ)
    → Enters before after o
    → Rises after later
    → Rises before (report o later)
report-Rises before after none later e h = rw e at h
report-Rises before after (some o) later e h = (e.1, rw e.0 at h)

-- Over any history of ticks, whatever the clock and the inputs do, the openings that are reported
-- as new rise strictly: none is reported twice, and none after a later one.
pub openings-Rises :
    (c : Chrono) (p : Policy) (s : PolicyState) (ticks : List (ℕ × Inputs))
    → Rises s.last_opening (openings c p s ticks)
unfolding openings
openings-Rises c p s [] = tt
openings-Rises c p s ((now, i) ∷ ticks) =
    tick (plan c p s now i) refl (openings-Rises c p s ticks) (λ s'. openings-Rises c p s' ticks)
  where
    tick :
        (m : Fallible (PolicyState × Plan))
        → plan c p s now i ≡ m
        → Rises s.last_opening (openings c p s ticks)
        → ((s' : PolicyState) → Rises s'.last_opening (openings c p s' ticks))
        → Rises s.last_opening (elim m [
          | err e ↦ openings c p s ticks
          | ok (s', r) ↦ report r.new_opening (openings c p s' ticks)
        ])
    tick (err e) h same next = same
    tick (ok (s', r)) h same next =
        report-Rises s.last_opening s'.last_opening r.new_opening (openings c p s' ticks)
          (plan-Enters c p s now i h) (next s')
