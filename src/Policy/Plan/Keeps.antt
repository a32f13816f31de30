-- ===== src/Policy/Plan/Keeps.antt =====
-- A tick of crates/dst-server/src/policy.rs keeps the persisted policy state valid.
use dst_server.Base.{
  ℕ, ◌≡◌, refl, ap, Bool, true, false, not, String, List, [], ◌∷◌, Option, none, some, ok, Holds,
  Holds-ok, arith, Map, keys, values, all, is_empty, same_texts, same_texts_refl, length, ◌==◌, inl,
  inr, Bool-cases,
}
use dst_server.Base.Int.{ℤ}
use dst_server.Policy.Time.{Chrono, checked_add_signed}
use dst_server.Policy.Inputs.{Presence, Inputs, validate_presences, validate_inputs, reliable}
use dst_server.Policy.Schedule.{Policy, ScheduleState}
use dst_server.Policy.Mods.{ModPhase, announcing, retry, ModMaintenance}
use dst_server.Policy.Mods.Valid.{ModsInv, PhaseInv, mods-Inv, Inv-mods, request-Inv, action-Inv}
use dst_server.Policy.State.{
  Activity, PolicyState, full, valid_observed, validate_activity, validate_state, shift_phase,
  clock_changed,
}
use dst_server.Policy.Activity.{map_values, after_clock, after_gap, observed, observe_activity}
use dst_server.Policy.Plan.Parts.{plan-Parts}
use dst_server.Policy.Plan.{
  Plan, Ticked, enter_opening, observe_mods, closing_notice, notify_closing, tick_closed, tick_mods,
  tick_regenerate, tick_running, choose, observe, plan,
}

-- The parts of a state that `validate_state` accepts.
pub record StateInv (s : PolicyState) : Type 0 where
  pub version : s.version ≡ 1
  pub mods : ModsInv s.mods
  pub activity : validate_activity s.activity ≡ ok tt

pub state-Inv : (s : PolicyState) → validate_state s ≡ ok tt → StateInv s
unfolding validate_state
state-Inv s h = record {
  version = ground arith;
  mods = mods-Inv s.mods (ground arith);
  activity = ground arith;
}

pub Inv-state : (s : PolicyState) → StateInv s → validate_state s ≡ ok tt
unfolding validate_state
Inv-state s h = ground (arith, Inv-mods s.mods h.mods, h.version)

-- The clock moves the notice and the deadline of a countdown by the same time.
shift_phase-Inv :
    (c : Chrono) (p : ModPhase) (skew : ℤ) (a : ℕ)
    → PhaseInv p a
    → Holds (λ q. PhaseInv q a) (shift_phase c p skew)
unfolding shift_phase checked_add_signed
shift_phase-Inv c (announcing d n) skew a h = ground arith
shift_phase-Inv c (retry t) skew a h = ground arith
shift_phase-Inv c _ skew a h = h

clock_changed-Inv :
    (c : Chrono) (s : PolicyState) (now : ℕ) (monotonic : Option ℕ)
    → StateInv s
    → Holds (λ r. StateInv r.0) (clock_changed c s now monotonic)
unfolding clock_changed
clock_changed-Inv c s now monotonic h = grind (arith, shift_phase-Inv)

enter_opening-Inv :
    (s : PolicyState) (id opening : Option ℕ)
    → StateInv s
    → Holds StateInv (enter_opening s id opening)
unfolding enter_opening
enter_opening-Inv s id none h = ground arith
enter_opening-Inv s id (some o) h = ground (arith, request-Inv s.mods)

observe_mods-Inv :
    (automatic : Bool) (m : ModMaintenance) (outdated : Bool)
    → ModsInv m
    → ModsInv (observe_mods automatic m outdated)
unfolding observe_mods
observe_mods-Inv automatic m outdated h = ground arith

keys-map_values {ℓ} :
    {A : Type ℓ} (f : Presence → A) (m : Map Presence) → keys (map_values f m) ≡ keys m
keys-map_values f [] = refl
keys-map_values f ((k, p) ∷ m) = ap (◌∷◌ k) (keys-map_values f m)

presences-full :
    (m : Map Presence)
    → validate_presences (values m) ≡ ok tt
    → (all full (values (map_values (λ p. p.session_id) m)) ≡ true)
      × (all full (values (map_values (λ p. p.observation) m)) ≡ true)
      × (all valid_observed (values (map_values (λ p. p.observed_seconds) m)) ≡ true)
unfolding validate_presences
presences-full [] h = ground arith
presences-full ((k, p) ∷ m) h = ground (arith, presences-full m)

validate_inputs-presences :
    (i : Inputs) → validate_inputs i ≡ ok tt → validate_presences (values i.presence) ≡ ok tt
unfolding validate_inputs
validate_inputs-presences i h = ground arith

same_length :
    (names : List String) (m : Map Presence)
    → not (is_empty names) ≡ true
    → (length m == length names) ≡ true
    → is_empty m ≡ false
same_length [] m a b = ground arith
same_length (n ∷ ns) [] a b = ground arith
same_length (n ∷ ns) (x ∷ m) a b = refl

reliable-nonempty : (i : Inputs) → reliable i ≡ true → is_empty i.presence ≡ false
unfolding reliable
reliable-nonempty i h = same_length i.expected_shards i.presence (ground arith) (ground arith)

after_clock-valid :
    (a : Option Activity) (changed : Bool)
    → validate_activity a ≡ ok tt
    → validate_activity (after_clock a changed) ≡ ok tt
unfolding validate_activity
after_clock-valid none changed h = refl
after_clock-valid (some a) changed h = ground arith

after_gap-valid :
    (a : Option Activity) (stopping : Bool)
    → validate_activity a ≡ ok tt
    → validate_activity (after_gap a stopping) ≡ ok tt
unfolding validate_activity
after_gap-valid none stopping h = refl
after_gap-valid (some a) stopping h = ground arith

is_empty-map_values {ℓ} :
    {A : Type ℓ} (f : Presence → A) (m : Map Presence) → is_empty (map_values f m) ≡ is_empty m
is_empty-map_values f [] = refl
is_empty-map_values f (x ∷ m) = refl

same_keys {ℓ κ} :
    {A : Type ℓ} {B : Type κ} (f : Presence → A) (g : Presence → B) (m : Map Presence)
    → same_texts (keys (map_values f m)) (keys (map_values g m)) ≡ true
same_keys f g m = rw (keys-map_values f m, keys-map_values g m) (same_texts_refl (keys m))

observed-valid :
    (c : Chrono) (a : Option Activity) (now : ℕ) (i : Inputs)
    → validate_activity a ≡ ok tt
    → validate_inputs i ≡ ok tt
    → Holds (λ b. validate_activity b ≡ ok tt) (observed c a now i)
unfolding observed
observed-valid c a now i h v = elim (Bool-cases (reliable i)) [
  | inr r ↦ rw r (after_gap-valid a i.clean_stop_in_progress h)
  | inl r ↦ rw r (
      unfold validate_activity in
      ground (
        arith,
        presences-full i.presence (validate_inputs-presences i v),
        reliable-nonempty i r,
        is_empty-map_values (λ p. p.session_id) i.presence,
        same_keys (λ p. p.session_id) (λ p. p.observation) i.presence,
        same_keys (λ p. p.session_id) (λ p. p.observed_seconds) i.presence,
      ))
]

observe-Inv :
    (c : Chrono) (p : Policy) (s : PolicyState) (now : ℕ) (i : Inputs) (schedule : ScheduleState)
    → StateInv s
    → validate_inputs i ≡ ok tt
    → Holds (λ r. StateInv r.0) (observe c p s now i schedule)
unfolding observe observe_activity
observe-Inv c p s now i schedule h v = grind (
  arith,
  clock_changed-Inv c s now i.monotonic h,
  enter_opening-Inv,
  observe_mods-Inv,
  after_clock-valid,
  observed-valid,
  v,
)

closing_notice-Inv :
    (c : Chrono) (p : Policy) (s : PolicyState) (now : ℕ) (i : Inputs) (schedule : ScheduleState)
    → StateInv s
    → Holds (λ (r : Ticked). StateInv r.0) (closing_notice c p s now i schedule)
unfolding closing_notice notify_closing
closing_notice-Inv c p s now i schedule h = ground arith

tick_mods-Inv :
    (c : Chrono) (p : Policy) (s : PolicyState) (now : ℕ) (i : Inputs) (schedule : ScheduleState)
    → StateInv s
    → Holds (λ (r : Ticked). StateInv r.0) (tick_mods c p s now i schedule)
unfolding tick_mods
tick_mods-Inv c p s now i schedule h =
    grind (arith, closing_notice-Inv, action-Inv c s.mods now i h.mods)

tick_running-Inv :
    (c : Chrono) (p : Policy) (s : PolicyState) (now : ℕ) (i : Inputs) (schedule : ScheduleState)
    → StateInv s
    → Holds (λ (r : Ticked). StateInv r.0) (tick_running c p s now i schedule)
unfolding tick_running tick_regenerate validate_activity
tick_running-Inv c p s now i schedule h = ground (arith, closing_notice-Inv c p s now i schedule h)

choose-Inv :
    (c : Chrono) (p : Policy) (s : PolicyState) (now : ℕ) (i : Inputs) (schedule : ScheduleState)
    → StateInv s
    → Holds (λ (r : Ticked). StateInv r.0) (choose c p s now i schedule)
unfolding choose tick_closed
choose-Inv c p s now i schedule h =
    ground (arith, tick_mods-Inv c p s now i schedule h, tick_running-Inv c p s now i schedule h)

-- A tick that succeeds leaves a state that `validate` accepts, whatever the clock did and whatever
-- action it plans: the budget of mod updates, the countdown, and the activity on record.
pub plan-valid :
    (c : Chrono) (p : Policy) (s : PolicyState) (now : ℕ) (i : Inputs) {s' : PolicyState} {r : Plan}
    → plan c p s now i ≡ ok (s', r)
    → validate_state s' ≡ ok tt
plan-valid c p s now i {s'} {r} h =
    let parts = plan-Parts c p s now i h in
    let inv =
      Holds-ok (λ (t : PolicyState × Option ℕ). StateInv t.0)
        (observe-Inv c p s now i r.schedule (state-Inv s parts.state_valid) parts.inputs_valid)
        parts.observing in
    Inv-state s' (
      Holds-ok (λ (t : Ticked). StateInv t.0) (choose-Inv c p parts.observed now i r.schedule inv)
        parts.chosen)
