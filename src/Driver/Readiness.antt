-- ===== src/Driver/Readiness.antt =====
-- When crates/dst-server/src/driver.rs calls a shard ready.
use dst_server.Base.{
  ℕ, ◌≡◌, ◌⊎◌, String, Bool, true, false, Option, List, [], ◌∷◌, ok, err, arith, Holds,
}
use dst_server.Driver.State.{Json, Pending, DriverState, Shared, can_serve, recompute_ready}
use dst_server.Driver.Handlers.{
  Handled, drop_request, advance_generation, fail, start_world, boot, bootstrap, keep_control,
  control,
}
use dst_server.Driver.Replies.{
  native_barrier, observe_presence, learn, learn_result, take_value, take_error, take_result, reply,
  reply_to, rpc,
}
use dst_server.Driver.Requests.{
  dispatch, mark_written, expire, expire_in, request_stop, record_exit, end, telemetry, lifecycle,
  Native, stats, malformed, other, master_ready, session, saved,
}
use dst_server.Driver.Steps.{
  Event, bootstraps, controls, replies, ends_command, lives, reports, breaks, dispatches, writes,
  expires, exits, checked, step, run,
}

module _ {V : Type 0} (J : Json V) where
  -- A shard that is called ready can serve.
  abbrev pub Honest : DriverState V → Type 0
  Honest s = (s.ready ≡ false) ⊎ (can_serve J s ≡ true)

  recompute-Honest : (s : DriverState V) → Honest (recompute_ready J s)
  unfolding recompute_ready can_serve
  recompute-Honest s = ground arith

  advance-Honest : (s : Shared V) (g : ℕ) → Honest s.state → Honest (advance_generation s g).0.state
  unfolding advance_generation drop_request can_serve
  advance-Honest s g h = ground (arith, h)

  fail-Honest : (s : Shared V) (e : String) → Honest (fail s e).state
  unfolding fail
  fail-Honest s e = ground arith

  start_world-Honest :
      (s : Shared V) (g : ℕ) (h : Option V) → Honest s.state → Honest (start_world J s g h).state
  unfolding start_world
  start_world-Honest s g h i = grind (arith, recompute-Honest, advance-Honest s g i)

  keep_control-Honest :
      (s : Shared V) (g : ℕ) (r : V) → Honest s.state → Honest (keep_control J s g r).state
  unfolding keep_control can_serve
  keep_control-Honest s g r i = grind (arith, advance-Honest s g i)

  observe_presence-Honest :
      (s : Shared V) (v : V) (u : String)
      → Honest s.state
      → Holds (λ r. Honest r.0.state) (observe_presence J s v u)
  unfolding observe_presence
  observe_presence-Honest s v u h = ground (arith, h)

  learn-Honest :
      (s : DriverState V) (method : String) (v : V) → Honest s → Honest (learn J s method v)
  unfolding recompute_ready can_serve
  learn-Honest s method v h = ground (arith, h)

  learn_result-Honest :
      (s : Shared V) (p : Pending V) (v : V) (u : String)
      → Honest s.state
      → Holds (λ r. Honest r.0.state) (learn_result J s p v u)
  unfolding learn_result
  learn_result-Honest s p v u h =
      ground (arith, observe_presence-Honest s v u h, learn-Honest s.state p.record_of.method v h)

  take_result-Honest :
      (s : Shared V) (p : Pending V) (r : V) (b : Bool) (u : String)
      → Honest s.state
      → Honest (take_result J s p r b u).0.state
  unfolding take_result take_value take_error can_serve
  take_result-Honest s p r b u h = grind (arith, learn_result-Honest, h)

  rpc-Honest :
      (s : Shared V) (payload : Option V) (u : String)
      → Honest s.state
      → Honest (rpc J s payload u).0.state
  unfolding rpc reply_to reply can_serve
  rpc-Honest s payload u h = grind (arith, take_result-Honest, h)

  bootstrap-Honest :
      (s : Shared V) (payload : Option V) → Honest s.state → Honest (bootstrap J s payload).0.state
  unfolding bootstrap boot
  bootstrap-Honest s payload h = grind (arith, start_world-Honest, h)

  control-Honest :
      (s : Shared V) (payload : Option V) → Honest s.state → Honest (control J s payload).0.state
  unfolding control
  control-Honest s payload h = grind (arith, keep_control-Honest, h)

  lifecycle-Honest :
      (s : Shared V) (line : Native V) → Honest s.state → Honest (lifecycle J s line).0.state
  unfolding lifecycle recompute_ready can_serve
  lifecycle-Honest s stats h = h
  lifecycle-Honest s malformed h = h
  lifecycle-Honest s other h = h
  lifecycle-Honest s master_ready h = ground arith
  lifecycle-Honest s (session i) h = ground (arith, h)
  lifecycle-Honest s (saved path snapshot) h = h
  lifecycle-Honest s Native.stops h = ground arith

  checked-Honest : (r : Handled V) → Honest r.0.state → Honest (checked J r).state
  checked-Honest (s, ok _) h = h
  checked-Honest (s, err e) h = fail-Honest s e

  step-Honest : (s : Shared V) (e : Event V) → Honest s.state → Honest (step J s e).state
  unfolding step
  step-Honest s (bootstraps payload) h = checked-Honest _ (bootstrap-Honest s payload h)
  step-Honest s (controls payload) h = checked-Honest _ (control-Honest s payload h)
  step-Honest s (replies payload u) h = checked-Honest _ (rpc-Honest s payload u h)
  step-Honest s (ends_command is_busy) h = unfold native_barrier can_serve in ground (arith, h)
  step-Honest s (lives line) h = checked-Honest _ (lifecycle-Honest s line h)
  step-Honest s (reports t) h = unfold telemetry can_serve in ground (arith, h)
  step-Honest s (breaks text) h = fail-Honest s text
  step-Honest s (dispatches r) h = unfold dispatch can_serve in ground (arith, h)
  step-Honest s writes h = unfold mark_written can_serve in ground (arith, h)
  step-Honest s (expires id text) h = unfold expire expire_in can_serve in ground (arith, h)
  step-Honest s Event.stops h = unfold request_stop in ground arith
  step-Honest s (exits report) h = unfold end record_exit in ground arith

  -- Whatever the game prints, and whatever requests, stops and exits come in between, a shard that
  -- is called ready runs, is not stopping and has not failed; the game has said that it is ready,
  -- and the health on record is that of the current world, with the protocol 3 and active players.
  pub run-Honest : (s : Shared V) (es : List (Event V)) → Honest s.state → Honest (run J s es).state
  unfolding run
  run-Honest s [] h = h
  run-Honest s (e ∷ es) h = run-Honest (step J s e) es (step-Honest s e h)
