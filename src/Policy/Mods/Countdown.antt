-- ===== src/Policy/Mods/Countdown.antt =====
-- What the mod maintenance of crates/dst-server/src/policy.rs announces, and how often it updates.
use dst_server.Base.{
  ℕ, ◌+◌, ◌-◌, ◌*◌, ◌/◌, ◌≤◌, ◌<◌, ◌≡◌, refl, true, false, none, some, ok, Holds, arith,
}
use dst_server.Policy.Time.{Chrono, seconds, add_time, sub_time}
use dst_server.Policy.Inputs.{Inputs, stop, announce, update_mods, mod_update, mod_message}
use dst_server.Policy.Mods.{
  ModPhase, idle, pending, announcing, stopping, updating, retry, failed, ModMaintenance, act,
  count_down, notice_seconds, action_in, action, Acted,
}

-- The next notice of a countdown, which a notice at `now` leaves.
abbrev pub next_after : ℕ → ℕ → ℕ
next_after deadline now = deadline - seconds (((notice_seconds deadline now + 29) / 30 - 1) * 30)

-- While the game runs before the deadline, a notice that is due names the seconds left and leaves
-- the next one strictly later, at the deadline or a whole number of half minutes before it: no
-- notice is given twice, and the countdown is not put off. The operation cannot fail.
pub count_down-notice :
    (c : Chrono) (m : ModMaintenance) (now deadline next : ℕ) (i : Inputs)
    → m.phase ≡ announcing deadline next
    → i.game_running ≡ true
    → now < deadline
    → next ≤ now
    → (action c m now i
        ≡ ok (
          record m { phase = announcing deadline (next_after deadline now) },
          some (announce (mod_message (notice_seconds deadline now))),
        ))
      × (now < next_after deadline now)
      × (next_after deadline now ≤ deadline)
unfolding action count_down sub_time
count_down-notice c m now deadline next i p r a b = (ground arith, omega arith, omega arith)

-- What a step of the maintenance may do, and with which attempt.
abbrev pub Reserves : ModMaintenance → Inputs → Acted → Type 0
Reserves m i (m', none) = m'.attempts ≡ m.attempts
Reserves m i (m', some (announce t)) = (i.game_running ≡ true) × (m'.attempts ≡ m.attempts)
Reserves m i (m', some (stop mod_update t)) =
    (i.game_running ≡ true) × (m'.attempts ≡ m.attempts) × (m'.phase ≡ stopping)
Reserves m i (m', some (update_mods k)) =
    (i.game_running ≡ false)
    × (m.attempts < 3)
    × (k ≡ m.attempts + 1)
    × (m'.attempts ≡ k)
    × (m'.phase ≡ updating)
Reserves m i (m', _) = ⊥

act-Reserves :
    (c : Chrono) (m : ModMaintenance) (now : ℕ) (i : Inputs) → Holds (Reserves m i) (act c m now i)
unfolding act add_time
act-Reserves c m now i = ground arith

-- The maintenance announces a restart or stops the game only while it runs, and asks for an update
-- only of a stopped game and within three attempts; it has then reserved that attempt and
-- recorded that the update runs. No other step spends an attempt, and it plans nothing else.
pub action-Reserves :
    (c : Chrono) (m : ModMaintenance) (now : ℕ) (i : Inputs)
    → Holds (Reserves m i) (action c m now i)
unfolding action count_down sub_time
action-Reserves c m now i = go m.phase refl
  where
    go : (p : ModPhase) → m.phase ≡ p → Holds (Reserves m i) (action_in p c m now i)
    go idle e = refl
    go updating e = refl
    go failed e = refl
    go pending e = act-Reserves c m now i
    go (retry t) e = ground (arith, act-Reserves c m now i)
    go (announcing d n) e = ground (arith, act-Reserves c m now i)
    go stopping e = ground (arith, act-Reserves c m now i, e)
