-- ===== src/Policy/Mods.antt =====
-- The mod maintenance of crates/dst-server/src/policy.rs: `ModMaintenance`, its phases and what it
-- asks the Agent to do.
pub mod Valid
pub mod Countdown
use dst_server.Base.{
  ℕ, ◌+◌, ◌-◌, ◌*◌, ◌/◌, ◌≤◌, ◌<◌, max, String, Bool, true, false, not, ◌&&◌, ◌||◌, Option, none,
  some, Result, ok, err, message, Fallible, ◌>>=◌, ◌>>◌, ensure, ltb, leb, ◌==◌, if◌then◌else◌,
}
use dst_server.Policy.Time.{Chrono, seconds, add_time, sub_time}
use dst_server.Policy.Inputs.{
  Inputs, Action, stop, announce, update_mods, StopReason, mod_update, mod_message,
}

abbrev pub mod_attempts : ℕ
mod_attempts = 3

pub data ModPhase : Type 0 where
  idle pending : ModPhase
  announcing : ℕ → ℕ → ModPhase
  stopping updating : ModPhase
  retry : ℕ → ModPhase
  failed : ModPhase

pub record ModMaintenance : Type 0 where
  pub phase : ModPhase
  pub attempts : ℕ
  pub manual : Bool
  pub resume_game : Bool
  pub observed_outdated : Bool
  pub error : Option String

-- `ModMaintenance { observed_outdated, ..default() }`.
abbrev pub idle_mods : Bool → ModMaintenance
idle_mods outdated = record {
  phase = idle;
  attempts = 0;
  manual = false;
  resume_game = true;
  observed_outdated = outdated;
  error = none;
}

unfoldable pub validate_phase : ModPhase → ℕ → Fallible (Unit {0})
validate_phase idle attempts = ensure (attempts == 0) "idle mod state retains attempts"
validate_phase updating attempts = ensure (ltb 0 attempts) "running update has no reserved attempt"
validate_phase (retry not_before) attempts =
    ensure (leb 1 attempts && ltb attempts mod_attempts) "retry state has no remaining attempts"
validate_phase failed attempts =
    ensure (attempts == mod_attempts) "failed mod state has an incomplete budget"
validate_phase (announcing deadline next_notice) attempts =
    ensure (leb next_notice deadline) "mod countdown is invalid"
validate_phase pending attempts = ok tt
validate_phase stopping attempts = ok tt

unfoldable pub validate_mods : ModMaintenance → Fallible (Unit {0})
unfolding validate_phase
validate_mods m = do
  ensure (leb m.attempts mod_attempts) "mod retry budget is invalid"
  validate_phase m.phase m.attempts

abbrev pub is_updating : ModPhase → Bool
is_updating updating = true
is_updating _ = false

abbrev pub is_failed : ModPhase → Bool
is_failed failed = true
is_failed _ = false

abbrev pub is_idle : ModPhase → Bool
is_idle idle = true
is_idle _ = false

abbrev pub is_announcing : ModPhase → Bool
is_announcing (announcing deadline next_notice) = true
is_announcing _ = false

abbrev pub is_stopping : ModPhase → Bool
is_stopping stopping = true
is_stopping _ = false

unfoldable pub request : ModMaintenance → Fallible ModMaintenance
request m = do
  ensure (not (is_updating m.phase)) "a mod update is already writing"
  ok (record m { phase = pending; attempts = 0; manual = false; resume_game = true; error = none })

abbrev pub Acted : Type 0
Acted = ModMaintenance × Option Action

unfoldable pub begin_countdown : Chrono → ModMaintenance → ℕ → Fallible Acted
begin_countdown c m now = do
  deadline ← add_time c now (seconds 60)
  next_notice ← add_time c now (seconds 30)
  ok (record m { phase = announcing deadline next_notice }, some (announce (mod_message 60)))

unfoldable pub reserve_attempt : ModMaintenance → Fallible Acted
reserve_attempt m = do
  ensure (ltb m.attempts mod_attempts) "mod update retry budget is exhausted"
  ok (record m { attempts = m.attempts + 1; phase = updating }, some (update_mods (m.attempts + 1)))

-- Behind the match: announce the restart of a running game, or reserve an attempt.
unfoldable pub act : Chrono → ModMaintenance → ℕ → Inputs → Fallible Acted
unfolding begin_countdown reserve_attempt
act c m now i =
    if i.game_running
    then (if not i.all_ready then ok (m, none) else begin_countdown c m now)
    else reserve_attempt m

-- The seconds that a notice names: at least one, and rounded up from whole milliseconds. `now` is
-- before the deadline here, so the difference is not negative.
abbrev pub notice_seconds : ℕ → ℕ → ℕ
notice_seconds deadline now = max (((deadline - now) / 1000000 + 999) / 1000) 1

-- The arm of a countdown while the game runs.
unfoldable pub give_notice : ModMaintenance → ℕ → ℕ → Fallible Acted
give_notice m now deadline = do
  let left = notice_seconds deadline now
  next ← sub_time deadline (seconds (((left + 29) / 30 - 1) * 30))
  ok (record m { phase = announcing deadline next }, some (announce (mod_message left)))

unfoldable pub count_down : ModMaintenance → ℕ → ℕ → ℕ → Fallible Acted
unfolding give_notice
count_down m now deadline next_notice =
    if leb deadline now
    then ok (record m { phase = stopping }, some (stop mod_update (some (mod_message 0))))
    else if leb next_notice now
    then give_notice m now deadline
    else ok (m, none)

unfoldable pub action_in : ModPhase → Chrono → ModMaintenance → ℕ → Inputs → Fallible Acted
unfolding act count_down
action_in idle c m now i = ok (m, none)
action_in updating c m now i = ok (m, none)
action_in failed c m now i = ok (m, none)
action_in (retry not_before) c m now i = if ltb now not_before then ok (m, none) else act c m now i
action_in (announcing deadline next_notice) c m now i =
    if i.game_running then count_down m now deadline next_notice else act c m now i
action_in stopping c m now i =
    if i.game_running then ok (m, some (stop mod_update none)) else act c m now i
action_in pending c m now i = act c m now i

unfoldable pub action : Chrono → ModMaintenance → ℕ → Inputs → Fallible Acted
unfolding action_in
action c m now i = action_in m.phase c m now i
