-- ===== src/Policy/Activity.antt =====
-- `observe_activity` of crates/dst-server/src/policy.rs: since when a room has been empty.
pub mod Bounds
use dst_server.Base.{
  ℕ, ◌+◌, ◌-◌, ◌≤◌, ◌<◌, max, min, String, Bool, true, false, not, ◌&&◌, ◌||◌, List, [], ◌∷◌,
  Option, none, some, Result, ok, err, message, Fallible, ◌>>=◌, or_fail, Map, values, lookup,
  is_some_and, same_map, ltb, leb, ◌==◌, if◌then◌else◌,
}
use dst_server.Base.Float.{F64, le_f64, lt_f64, try_from_secs_f64}
use dst_server.Policy.Time.{Chrono}
use dst_server.Policy.Inputs.{Presence, Inputs, reliable}
use dst_server.Policy.State.{Activity, PolicyState}

-- `presence.iter().map(|(name, value)| (name.clone(), f(value))).collect()`.
abbrev pub map_values {ℓ} : {A : Type ℓ} → (Presence → A) → Map Presence → Map A
map_values f [] = []
map_values f ((name, p) ∷ m) = (name, f p) ∷ map_values f m

-- Every observation has gone on since the previous one.
unfoldable pub grown : Map Presence → Map F64 → Bool
grown [] previous = true
grown ((name, current) ∷ rest) previous =
    is_some_and (lookup name previous) (λ old. le_f64 old current.observed_seconds)
    && grown rest previous

unfoldable pub continuous : Option Activity → Map Presence → Bool
continuous none presence = false
continuous (some previous) presence =
    not previous.interrupted
    && (same_map previous.sessions (map_values (λ p. p.session_id) presence)
        && (previous.clean_shutdown
            || (same_map previous.observations (map_values (λ p. p.observation) presence)
                && grown presence previous.observed_seconds)))

abbrev pub is_occupied : Presence → Bool
is_occupied p = not (p.client_count == 0) || not (p.player_count == 0)

-- One round of the loop over the shards. An idle time that chrono cannot hold is an error.
unfoldable pub last_active_by : Chrono → ℕ → ℕ → Presence → Fallible ℕ
last_active_by c now last p =
    let idle_for : Fallible ℕ =
      or_fail (try_from_secs_f64 p.idle_seconds)
        (message "cannot convert float seconds to Duration") in
    if is_occupied p
    then ok now
    else if lt_f64 p.idle_seconds p.observed_seconds
    then (idle_for >>= λ idle.
        if ltb c.last_delta idle
        then err (message "presence idle duration is too large")
        else if ltb now idle
        then err (message "presence activity timestamp is out of range")
        else ok (max last (now - idle)))
    else ok last

unfoldable pub last_active : Chrono → ℕ → ℕ → List Presence → Fallible ℕ
last_active c now last [] = ok last
last_active c now last (p ∷ ps) = do next ← last_active_by c now last p; last_active c now next ps

-- The start of the loop.
unfoldable pub active_since : Option Activity → Map Presence → ℕ → ℕ
active_since none presence now = now
active_since (some previous) presence now =
    if continuous (some previous) presence then min previous.last_active_at now else now

-- A changed clock interrupts the activity on record.
abbrev pub after_clock : Option Activity → Bool → Option Activity
after_clock none changed = none
after_clock (some a) changed =
    if changed then some (record a { interrupted = true; clean_shutdown = false }) else some a

-- So does an observation that is not reliable, except across a clean stop.
abbrev pub after_gap : Option Activity → Bool → Option Activity
after_gap none stopping = none
after_gap (some a) stopping =
    if not a.clean_shutdown && not stopping then some (record a { interrupted = true }) else some a

-- The activity after an observation.
unfoldable pub observed : Chrono → Option Activity → ℕ → Inputs → Fallible (Option Activity)
observed c activity now i =
    if not (reliable i) then ok (after_gap activity i.clean_stop_in_progress) else do
      last ← last_active c now (active_since activity i.presence now) (values i.presence)
      ok (
          some (record {
            sessions = map_values (λ p. p.session_id) i.presence;
            observations = map_values (λ p. p.observation) i.presence;
            observed_seconds = map_values (λ p. p.observed_seconds) i.presence;
            last_active_at = last;
            clean_shutdown = false;
            interrupted = false;
          }))

unfoldable pub observe_activity : Chrono → PolicyState → ℕ → Inputs → Bool → Fallible PolicyState
observe_activity c s now i changed = do
  activity ← observed c (after_clock s.activity changed) now i
  ok (record s { activity = activity })
