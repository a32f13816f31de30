-- ===== src/Policy/Mods/Valid.antt =====
-- The mod maintenance of crates/dst-server/src/policy.rs keeps the retry budget and the countdown.
use dst_server.Base.{ℕ, ◌≤◌, ◌<◌, ◌≡◌, ok, Holds, arith}
use dst_server.Policy.Time.{Chrono, add_time, sub_time}
use dst_server.Policy.Inputs.{Inputs}
use dst_server.Policy.Mods.{
  ModPhase, idle, pending, announcing, stopping, updating, retry, failed, ModMaintenance,
  validate_phase, validate_mods, request, act, count_down, action_in, action, Acted,
}

-- `validate` in words: the budget of three attempts, and what each phase knows of it.
abbrev pub PhaseInv : ModPhase → ℕ → Type 0
PhaseInv idle a = a ≡ 0
PhaseInv updating a = 0 < a
PhaseInv (retry t) a = (1 ≤ a) × (a < 3)
PhaseInv failed a = a ≡ 3
PhaseInv (announcing deadline next) a = next ≤ deadline
PhaseInv pending a = Unit
PhaseInv stopping a = Unit

abbrev pub ModsInv : ModMaintenance → Type 0
ModsInv m = (m.attempts ≤ 3) × PhaseInv m.phase m.attempts

phase-Inv : (p : ModPhase) (a : ℕ) → validate_phase p a ≡ ok tt → PhaseInv p a
unfolding validate_phase
phase-Inv idle a h = ground arith
phase-Inv _ a h = ground arith

Inv-phase : (p : ModPhase) (a : ℕ) → PhaseInv p a → validate_phase p a ≡ ok tt
unfolding validate_phase
Inv-phase idle a h = ground arith
Inv-phase _ a h = ground arith

pub mods-Inv : (m : ModMaintenance) → validate_mods m ≡ ok tt → ModsInv m
unfolding validate_mods
mods-Inv m h = (ground arith, phase-Inv m.phase m.attempts (ground arith))

pub Inv-mods : (m : ModMaintenance) → ModsInv m → validate_mods m ≡ ok tt
unfolding validate_mods
Inv-mods m h = ground (arith, Inv-phase m.phase m.attempts h.1)

pub request-Inv : (m : ModMaintenance) → Holds ModsInv (request m)
unfolding request
request-Inv m = ground arith

act-Inv :
    (c : Chrono) (m : ModMaintenance) (now : ℕ) (i : Inputs)
    → ModsInv m
    → Holds (λ (r : Acted). ModsInv r.0) (act c m now i)
unfolding act add_time
act-Inv c m now i h = ground arith

count_down-Inv :
    (m : ModMaintenance) (now deadline next : ℕ)
    → ModsInv m
    → Holds (λ (r : Acted). ModsInv r.0) (count_down m now deadline next)
unfolding count_down sub_time
count_down-Inv m now deadline next h = ground arith

pub action-Inv :
    (c : Chrono) (m : ModMaintenance) (now : ℕ) (i : Inputs)
    → ModsInv m
    → Holds (λ (r : Acted). ModsInv r.0) (action c m now i)
unfolding action
action-Inv c m now i h = go m.phase
  where
    go : (p : ModPhase) → Holds (λ (r : Acted). ModsInv r.0) (action_in p c m now i)
    go idle = h
    go updating = h
    go failed = h
    go pending = act-Inv c m now i h
    go (retry t) = ground (arith, act-Inv c m now i h)
    go (announcing d n) = ground (arith, act-Inv c m now i h, count_down-Inv m now d n h)
    go stopping = ground (arith, act-Inv c m now i h)
