-- ===== src/Policy/Attempts.antt =====
-- How often one mod maintenance of crates/dst-server/src/policy.rs tries to update.
use dst_server.Base.{
  ℕ, ◌+◌, ◌≤◌, ◌<◌, ◌≡◌, ◌⊎◌, String, List, [], ◌∷◌, Option, none, some, ok, err, arith,
}
use dst_server.Policy.Time.{Chrono, seconds, add_time}
use dst_server.Policy.Inputs.{
  Inputs, Action, start, stop, announce, update_mods, regenerate, mod_update, schedule, mod_failure,
}
use dst_server.Policy.Mods.{failed, updating, retry, ModMaintenance, Acted, action, idle_mods}
use dst_server.Policy.Mods.Countdown.{Reserves, action-Reserves}
use dst_server.Policy.State.{
  PolicyState, UpdateOutcome, updated, update_failed, finish, finish_mod_update,
}

-- What happens to a maintenance until it is done or asked for anew: the policy acts on it, or its
-- updater fails.
pub data Event : Type 0 where
  acts : ℕ → Inputs → Event
  fails : ℕ → String → Event

-- The maintenance afterwards, with the action. A call that fails changes nothing.
unfoldable pub after : Chrono → PolicyState → Event → PolicyState × Option Action
after c s (acts now i) = elim (action c s.mods now i) [
  | ok (m, a) ↦ (record s { mods = m }, a)
  | err e ↦ (s, none)
]
after c s (fails now error) = elim (finish_mod_update c s now (update_failed error)) [
  | ok t ↦ (t, none)
  | err e ↦ (s, none)
]

abbrev pub updates : Option Action → ℕ
updates (some (update_mods k)) = 1
updates _ = 0

unfoldable pub attempts : Chrono → PolicyState → List Event → ℕ
attempts c s [] = 0
attempts c s (e ∷ es) = updates (after c s e).1 + attempts c (after c s e).0 es

Reserves-updates :
    (m : ModMaintenance) (i : Inputs) (r : Acted)
    → Reserves m i r
    → m.attempts ≤ 3
    → (r.0.attempts ≡ m.attempts + updates r.1) × (r.0.attempts ≤ 3)
Reserves-updates m i (m', none) h l = omega arith
Reserves-updates m i (m', some start) h l = absurd h
Reserves-updates m i (m', some (stop mod_update t)) h l = omega arith
Reserves-updates m i (m', some (stop schedule t)) h l = absurd h
Reserves-updates m i (m', some (stop mod_failure t)) h l = absurd h
Reserves-updates m i (m', some (announce t)) h l = omega arith
Reserves-updates m i (m', some (update_mods k)) h l = omega arith
Reserves-updates m i (m', some (regenerate t)) h l = absurd h

after-updates :
    (c : Chrono) (s : PolicyState) (e : Event)
    → s.mods.attempts ≤ 3
    → ((after c s e).0.mods.attempts ≡ s.mods.attempts + updates (after c s e).1)
      × ((after c s e).0.mods.attempts ≤ 3)
unfolding after
after-updates c s (acts now i) l = grind (arith, action-Reserves c s.mods now i, Reserves-updates)
after-updates c s (fails now error) l = unfold finish_mod_update finish in ground arith

-- However the policy acts and the updater fails, one maintenance reserves at most the attempts
-- that are left of three.
pub attempts_bounded :
    (c : Chrono) (s : PolicyState) (es : List Event)
    → s.mods.attempts ≤ 3
    → s.mods.attempts + attempts c s es ≤ 3
unfolding attempts
attempts_bounded c s [] l = omega arith
attempts_bounded c s (e ∷ es) l =
    let a = after-updates c s e l in omega (arith, a, attempts_bounded c (after c s e).0 es a.1)

-- The maintenance after an update.
abbrev pub Finished : ℕ → ModMaintenance → ModMaintenance → UpdateOutcome → Type 0
Finished now m m' updated = m' ≡ idle_mods m.observed_outdated
Finished now m m' (update_failed error) =
    (m'.attempts ≡ m.attempts)
    × (m'.error ≡ some error)
    × (((m.attempts < 3) × (m'.phase ≡ retry (now + seconds 300)))
        ⊎ ((3 ≤ m.attempts) × (m'.phase ≡ failed)))

-- A failed update is tried again five minutes later at the earliest while an attempt is left, and
-- after the third the maintenance has failed; a successful one ends it. Both keep what was seen of
-- the mods, and both need an update that runs.
pub finish-cases :
    (c : Chrono) (s : PolicyState) (now : ℕ) (outcome : UpdateOutcome) {t : PolicyState}
    → finish_mod_update c s now outcome ≡ ok t
    → (s.mods.phase ≡ updating)
      × (t.mods.observed_outdated ≡ s.mods.observed_outdated)
      × Finished now s.mods t.mods outcome
unfolding finish_mod_update finish add_time
finish-cases c s now updated h = ground arith
finish-cases c s now (update_failed error) h = ground arith
