-- ===== src/Driver/Generations.antt =====
-- The worlds of a shard, one after another, in crates/dst-server/src/driver.rs; and the telemetry of
-- one of them.
use dst_server.Base.{
  ℕ, ◌+◌, ◌≤◌, ◌<◌, ◌≡◌, refl, ◌⊎◌, inl, String, Bool, Option, none, some, List, [], ◌∷◌, ok, err,
  arith, Holds, length, ◌++◌, if◌then◌else◌,
}
use dst_server.Driver.State.{Json, Pending, DriverState, Shared, recompute_ready}
use dst_server.Driver.Handlers.{
  Handled, drop_request, advance_generation, fail, start_world, boot, bootstrap, push_control,
  keep_control, control,
}
use dst_server.Driver.Replies.{
  native_barrier, observe_presence, learn_result, take_value, take_error, take_result, reply,
  reply_to, rpc,
}
use dst_server.Driver.Requests.{
  dispatch, mark_written, expire, expire_in, request_stop, record_exit, end, telemetry, lifecycle,
  Telemetry, Native, stats, malformed, other, master_ready, session, saved,
}
use dst_server.Driver.Steps.{
  Event, bootstraps, controls, replies, ends_command, lives, reports, breaks, dispatches, writes,
  expires, exits, checked, step, run,
}

-- A world and its number of changes, and those some time later.
abbrev pub Later : Option ℕ → ℕ → Option ℕ → ℕ → Type 0
Later none c later d = c ≤ d
Later (some g) c none d = ⊥
Later (some g) c (some h) d = (g ≤ h) × (c ≤ d) × (d + g ≤ h + c) × ((g ≡ h) ⊎ (c < d))

Later-refl : (g : Option ℕ) (c : ℕ) → Later g c g c
Later-refl none c = omega arith
Later-refl (some g) c = (omega arith, omega arith, omega arith, inl refl)

Later-trans : (f g h : Option ℕ) (b c d : ℕ) → Later f b g c → Later g c h d → Later f b h d
Later-trans none none h b c d p q = ground arith
Later-trans none (some g) none b c d p q = absurd q
Later-trans none (some g) (some h) b c d p q = ground arith
Later-trans (some f) none h b c d p q = absurd p
Later-trans (some f) (some g) none b c d p q = absurd q
Later-trans (some f) (some g) (some h) b c d p q = ground arith

module _ {V : Type 0} where
  -- The state is of the same world or a later one. Every change of the world is counted, at most
  -- once for each step of its number.
  abbrev pub Follows : DriverState V → DriverState V → Type 0
  Follows s t = Later s.generation s.generation_changes t.generation t.generation_changes

  abbrev pub Bounded : DriverState V → Type 0
  Bounded s = length s.control_records ≤ 128

  length-append : (xs : List V) (y : V) → length (xs ++ (y ∷ [])) ≡ length xs + 1
  length-append [] y = refl
  length-append (x ∷ xs) y = ground (arith, length-append xs y)

  push_control-Bounded : (rs : List V) (r : V) → length rs ≤ 128 → length (push_control rs r) ≤ 128
  unfolding push_control
  push_control-Bounded [] r h = ground arith
  push_control-Bounded (q ∷ rs) r h = ground (arith, length-append rs r, length-append (q ∷ rs) r)

  drop_request-state :
      (s : Shared V) (p : Option (Pending V)) (g : ℕ)
      → ((drop_request s p g).state.generation ≡ s.state.generation)
        × ((drop_request s p g).state.generation_changes ≡ s.state.generation_changes)
        × ((drop_request s p g).state.control_records ≡ s.state.control_records)
  unfolding drop_request
  drop_request-state s p g = ground arith

  advance-Follows : (s : Shared V) (g : ℕ) → Follows s.state (advance_generation s g).0.state
  unfolding advance_generation
  advance-Follows s g = go s.state.generation refl
    where
      go :
          (o : Option ℕ) → s.state.generation ≡ o → Follows s.state (advance_generation s g).0.state
      go none e = grind (arith, drop_request-state, Later-refl none s.state.generation_changes, e)
      go (some c) e =
          grind (arith, drop_request-state, Later-refl (some c) s.state.generation_changes, e)

  advance-Bounded :
      (s : Shared V) (g : ℕ) → Bounded s.state → Bounded (advance_generation s g).0.state
  unfolding advance_generation
  advance-Bounded s g h = grind (arith, drop_request-state, h)

module _ {V : Type 0} (J : Json V) (first : DriverState V) where
  abbrev Inv : DriverState V → Type 0
  Inv t = Follows first t × Bounded t

  advance-Inv : (s : Shared V) (g : ℕ) → Inv s.state → Inv (advance_generation s g).0.state
  advance-Inv s g h = (Later-trans _ _ _ _ _ _ h.0 (advance-Follows s g), advance-Bounded s g h.1)

  fail-Inv : (s : Shared V) (e : String) → Inv s.state → Inv (fail s e).state
  unfolding fail
  fail-Inv s e h = ground (arith, h)

  checked-Inv : (r : Handled V) → Inv r.0.state → Inv (checked J r).state
  checked-Inv (s, ok _) h = h
  checked-Inv (s, err e) h = fail-Inv s e h

  bootstrap-Inv :
      (s : Shared V) (payload : Option V) → Inv s.state → Inv (bootstrap J s payload).0.state
  unfolding bootstrap boot start_world recompute_ready
  bootstrap-Inv s payload h = grind (arith, advance-Inv, h)

  control-Inv :
      (s : Shared V) (payload : Option V) → Inv s.state → Inv (control J s payload).0.state
  unfolding control keep_control
  control-Inv s payload h = grind (arith, advance-Inv, push_control-Bounded, h)

  learn_result-Inv :
      (s : Shared V) (p : Pending V) (v : V) (u : String)
      → Inv s.state
      → Holds (λ r. Inv r.0.state) (learn_result J s p v u)
  unfolding learn_result observe_presence recompute_ready
  learn_result-Inv s p v u h = ground (arith, h)

  take_result-Inv :
      (s : Shared V) (p : Pending V) (r : V) (b : Bool) (u : String)
      → Inv s.state
      → Inv (take_result J s p r b u).0.state
  unfolding take_result take_value take_error
  take_result-Inv s p r b u h = grind (arith, learn_result-Inv, h)

  rpc-Inv :
      (s : Shared V) (payload : Option V) (u : String)
      → Inv s.state
      → Inv (rpc J s payload u).0.state
  unfolding rpc reply_to reply
  rpc-Inv s payload u h = grind (arith, take_result-Inv, h)

  lifecycle-Inv : (s : Shared V) (line : Native V) → Inv s.state → Inv (lifecycle J s line).0.state
  unfolding lifecycle recompute_ready
  lifecycle-Inv s stats h = h
  lifecycle-Inv s malformed h = h
  lifecycle-Inv s other h = h
  lifecycle-Inv s master_ready h = h
  lifecycle-Inv s (session i) h = ground (arith, h)
  lifecycle-Inv s (saved path snapshot) h = h
  lifecycle-Inv s Native.stops h = h

  step-Inv : (s : Shared V) (e : Event V) → Inv s.state → Inv (step J s e).state
  unfolding step
  step-Inv s (bootstraps payload) h = checked-Inv _ (bootstrap-Inv s payload h)
  step-Inv s (controls payload) h = checked-Inv _ (control-Inv s payload h)
  step-Inv s (replies payload u) h = checked-Inv _ (rpc-Inv s payload u h)
  step-Inv s (ends_command is_busy) h = unfold native_barrier in ground (arith, h)
  step-Inv s (lives line) h = checked-Inv _ (lifecycle-Inv s line h)
  step-Inv s (reports t) h = unfold telemetry in ground (arith, h)
  step-Inv s (breaks text) h = fail-Inv s text h
  step-Inv s (dispatches r) h = unfold dispatch in ground (arith, h)
  step-Inv s writes h = unfold mark_written in ground (arith, h)
  step-Inv s (expires id text) h = unfold expire expire_in in ground (arith, h)
  step-Inv s Event.stops h = unfold request_stop in ground (arith, h)
  step-Inv s (exits report) h = unfold end record_exit in ground (arith, h)

  run-Inv : (s : Shared V) (es : List (Event V)) → Inv s.state → Inv (run J s es).state
  unfolding run
  run-Inv s [] h = h
  run-Inv s (e ∷ es) h = run-Inv (step J s e) es (step-Inv s e h)

-- Over any history the world never goes back to an earlier one, every change of a known world is
-- counted, at most once for each step of its number, and the records of the control stay within
-- the 128 of their history.
pub run-Follows :
    {V : Type 0} (J : Json V) (s : Shared V) (es : List (Event V))
    → length s.state.control_records ≤ 128
    → Follows s.state (run J s es).state × (length (run J s es).state.control_records ≤ 128)
run-Follows J s es h = run-Inv J s.state s es (Later-refl _ _, h)

module _ {V : Type 0} where
  -- The telemetry records one after another, and how many of them are passed on.
  unfoldable pub receive : Shared V → List (Option Telemetry) → Shared V × ℕ
  receive s [] = (s, 0)
  receive s (t ∷ ts) =
      let (later, passed) = telemetry s t in
      let (final, count) = receive later ts in (final, if passed then count + 1 else count)

  telemetry-counted :
      (s : Shared V) (t : Option Telemetry)
      → (telemetry s t).0.state.telemetry_sequence + s.state.telemetry_gaps
        ≡ s.state.telemetry_sequence
          + (telemetry s t).0.state.telemetry_gaps
          + (if (telemetry s t).1 then 1 else 0)
  unfolding telemetry
  telemetry-counted s none = ground arith
  telemetry-counted s (some t) = ground arith

  -- While the world stays the same, its telemetry is accounted for: the last sequence number on
  -- record grows by the number of events passed on and the gaps counted, whatever the game sends
  -- in between, out of order, twice, or for another world.
  pub receive-counted :
      (s : Shared V) (ts : List (Option Telemetry))
      → (receive s ts).0.state.telemetry_sequence + s.state.telemetry_gaps
        ≡ s.state.telemetry_sequence + (receive s ts).0.state.telemetry_gaps + (receive s ts).1
  unfolding receive
  receive-counted s [] = omega arith
  receive-counted s (t ∷ ts) =
      ground (arith, telemetry-counted s t, receive-counted (telemetry s t).0 ts)
