-- ===== src/Policy/Plan/Safety.antt =====
-- When a tick of crates/dst-server/src/policy.rs plans which action.
use dst_server.Base.{
  ℕ, ◌+◌, ◌-◌, ◌≤◌, ◌<◌, ◌≡◌, refl, true, false, ◌&&◌, String, Option, none, some, ok, Holds,
  Holds-ok, Bool-cases, ◌⊎◌, inl, inr, arith, leb, Map, is_some_and,
}
use dst_server.Policy.Time.{Chrono, seconds}
use dst_server.Policy.Inputs.{
  Inputs, Action, start, stop, announce, update_mods, regenerate, StopReason, reliable_empty,
}
use dst_server.Policy.Schedule.{Policy, ScheduleState}
use dst_server.Policy.Mods.{idle, failed, Acted}
use dst_server.Policy.Mods.Countdown.{Reserves, action-Reserves}
use dst_server.Policy.State.{Activity, PolicyState}
use dst_server.Policy.Plan.Parts.{plan-Parts}
use dst_server.Policy.Plan.{
  Plan, Ticked, retention, closing_notice, notify_closing, tick_closed, tick_mods, tick_regenerate,
  tick_running, choose, observe, plan, expired,
}

-- The regeneration's premises: a world day, and an activity that was not interrupted and ended
-- longer than the day's retention ago.
abbrev pub IsExpired : PolicyState → ℕ → Inputs → Map String → Type 0
IsExpired s now i sessions =
    (day : ℕ) × (i.master_day ≡ some day)
    × ((a : Activity) × (s.activity ≡ some a)
        × (a.interrupted ≡ false)
        × (a.sessions ≡ sessions)
        × (a.last_active_at + retention day < now))

-- What must hold of the observed state and the inputs for an action.
abbrev pub Allowed : Policy → PolicyState → ℕ → Inputs → ScheduleState → Option Action → Type 0
Allowed p s now i schedule none = Unit
Allowed p s now i schedule (some start) =
    (schedule.is_open ≡ true)
    × (i.game_running ≡ false)
    × (i.busy ≡ false)
    × (i.writes_in_progress ≡ false)
    × (i.faulted ≡ false)
    × (s.mods.phase ≡ idle)
Allowed p s now i schedule (some (stop StopReason.schedule m)) =
    (schedule.is_open ≡ false) × (i.game_running ≡ true) × (i.writes_in_progress ≡ false)
Allowed p s now i schedule (some (stop StopReason.mod_failure m)) =
    (schedule.is_open ≡ true)
    × (i.game_running ≡ true)
    × (i.writes_in_progress ≡ false)
    × (s.mods.phase ≡ failed)
Allowed p s now i schedule (some (stop StopReason.mod_update m)) =
    (schedule.is_open ≡ true)
    × (i.game_running ≡ true)
    × (i.busy ≡ false)
    × (i.writes_in_progress ≡ false)
Allowed p s now i schedule (some (announce m)) =
    (schedule.is_open ≡ true)
    × (i.game_running ≡ true)
    × (i.busy ≡ false)
    × (i.writes_in_progress ≡ false)
Allowed p s now i schedule (some (update_mods k)) =
    (schedule.is_open ≡ true)
    × (i.game_running ≡ false)
    × (i.busy ≡ false)
    × (i.writes_in_progress ≡ false)
    × (i.faulted ≡ false)
    × (k ≡ s.mods.attempts + 1)
    × (k ≤ 3)
    × (is_some_and schedule.next_change (λ close. leb (close - now) (seconds 60)) ≡ false)
Allowed p s now i schedule (some (regenerate sessions)) =
    (schedule.is_open ≡ true)
    × (i.game_running ≡ true)
    × (i.all_ready ≡ true)
    × (i.busy ≡ false)
    × (i.writes_in_progress ≡ false)
    × (p.idle_regeneration ≡ true)
    × (reliable_empty i ≡ true)
    × IsExpired s now i sessions

abbrev Fits : Policy → PolicyState → ℕ → Inputs → ScheduleState → Ticked → Type 0
Fits p s now i schedule r = Allowed p s now i schedule r.1

expired-IsExpired :
    (s : PolicyState) (now : ℕ) (i : Inputs) (day : Option ℕ) (a : Activity)
    → i.master_day ≡ day
    → s.activity ≡ some a
    → expired now i day (some a) ≡ true
    → (reliable_empty i ≡ true) × IsExpired s now i a.sessions
unfolding expired
expired-IsExpired s now i none a d e h = ground arith
expired-IsExpired s now i (some day) a d e h =
    (ground arith, (day, d, (a, e, ground arith, refl, ground arith)))

module _ (c : Chrono) (p : Policy) (s : PolicyState) (now : ℕ) (i : Inputs)
    (schedule : ScheduleState) (o : schedule.is_open ≡ true)
    (w : i.writes_in_progress ≡ false) where
  closing_notice-Allowed :
      (t : PolicyState)
      → i.busy ≡ false
      → Holds (Fits p s now i schedule) (closing_notice c p t now i schedule)
  unfolding closing_notice notify_closing
  closing_notice-Allowed t b = ground arith

  regenerate-Allowed :
      (activity : Option Activity)
      → s.activity ≡ activity
      → i.busy ≡ false
      → i.game_running ≡ true
      → p.idle_regeneration ≡ true
      → i.all_ready ≡ true
      → expired now i i.master_day activity ≡ true
      → Fits p s now i schedule (tick_regenerate s now activity)
  unfolding tick_regenerate
  regenerate-Allowed none e b g r a x = tt
  regenerate-Allowed (some t) e b g r a x =
      let (empty, old) = expired-IsExpired s now i i.master_day t refl e x in
      (o, g, a, b, w, r, empty, old)

  tick_running-Allowed :
      i.busy ≡ false
      → i.game_running ≡ true
      → Holds (Fits p s now i schedule) (tick_running c p s now i schedule)
  unfolding tick_running
  tick_running-Allowed b g =
      elim (Bool-cases
        (p.idle_regeneration && (i.all_ready && expired now i i.master_day s.activity))) [
          | inr e ↦ rw e (closing_notice-Allowed s b)
          | inl e ↦ rw e (
              regenerate-Allowed s.activity refl b g (ground (arith, e)) (ground (arith, e))
                (ground (arith, e)))
        ]

  acted-Allowed :
      (r : Acted)
      → i.busy ≡ false
      → i.faulted ≡ false
      → is_some_and schedule.next_change (λ close. leb (close - now) (seconds 60)) ≡ false
      → Reserves s.mods i r
      → Allowed p s now i schedule r.1
  acted-Allowed (m, none) b f n h = tt
  acted-Allowed (m, some start) b f n h = absurd h
  acted-Allowed (m, some (stop StopReason.mod_update t)) b f n h = (o, h.0, b, w)
  acted-Allowed (m, some (stop StopReason.schedule t)) b f n h = absurd h
  acted-Allowed (m, some (stop StopReason.mod_failure t)) b f n h = absurd h
  acted-Allowed (m, some (announce t)) b f n h = (o, h.0, b, w)
  acted-Allowed (m, some (update_mods k)) b f n h = (o, h.0, b, w, f, h.2, omega arith, n)
  acted-Allowed (m, some (regenerate t)) b f n h = absurd h

  tick_mods-Allowed :
      i.faulted ≡ false → Holds (Fits p s now i schedule) (tick_mods c p s now i schedule)
  unfolding tick_mods
  tick_mods-Allowed f =
      grind (arith, closing_notice-Allowed, acted-Allowed, action-Reserves c s.mods now i)

  choose_open-Allowed : Holds (Fits p s now i schedule) (choose c p s now i schedule)
  unfolding choose
  choose_open-Allowed = ground (arith, o, w, tick_mods-Allowed, tick_running-Allowed)

module _ (c : Chrono) (p : Policy) (s : PolicyState) (now : ℕ) (i : Inputs)
    (schedule : ScheduleState) where
  choose_idle-Allowed :
      (schedule.is_open ≡ false) ⊎ (i.writes_in_progress ≡ true)
      → Holds (Fits p s now i schedule) (choose c p s now i schedule)
  unfolding choose tick_closed
  choose_idle-Allowed h = ground arith

  choose-Allowed : Holds (Fits p s now i schedule) (choose c p s now i schedule)
  choose-Allowed = elim (Bool-cases schedule.is_open) [
    | inr o ↦ choose_idle-Allowed (inl o)
    | inl o ↦ elim (Bool-cases i.writes_in_progress) [
      | inl w ↦ choose_idle-Allowed (inr w)
      | inr w ↦ choose_open-Allowed c p s now i schedule o w
    ]
  ]

-- A tick plans an action only where it may: it starts only a stopped game within an opening with
-- nothing else going on, stops for the schedule only a running game outside the openings, updates
-- mods only while the game is stopped and with one of three attempts, and regenerates a world only
-- if all its shards are reliably empty and its last activity, not interrupted since, is longer ago
-- than the retention of its day. While the game's files are written it plans nothing.
pub plan-Allowed :
    (c : Chrono) (p : Policy) (s : PolicyState) (now : ℕ) (i : Inputs) {s' : PolicyState} {r : Plan}
    → plan c p s now i ≡ ok (s', r)
    → (t : PolicyState) × (observe c p s now i r.schedule ≡ ok (t, r.new_opening))
      × Allowed p t now i r.schedule r.action
plan-Allowed c p s now i {s'} {r} h =
    let parts = plan-Parts c p s now i h in
    let t = parts.observed in
    (
      t,
      parts.observing,
      Holds-ok (Fits p t now i r.schedule) (choose-Allowed c p t now i r.schedule) parts.chosen,
    )
