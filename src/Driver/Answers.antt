-- ===== src/Driver/Answers.antt =====
-- What becomes of a request that waits for its answer in crates/dst-server/src/driver.rs.
use dst_server.Base.{
  ℕ, ◌≡◌, refl, ◌⊎◌, inl, String, Bool, true, false, Option, none, some, ok, err, arith, Holds,
}
use dst_server.Base.{inr, Result, List, [], ◌∷◌, ◌++◌}
use dst_server.Driver.Requests.{ExitReport}
use dst_server.Driver.State.{
  Json, DriverResult, RequestRecord, Response, waiting, answered, Pending, Shared, deliver,
  recompute_ready,
}
use dst_server.Driver.Handlers.{
  Handled, drop_request, advance_generation, fail, start_world, boot, bootstrap, keep_control,
  control,
}
use dst_server.Driver.Replies.{
  native_barrier, observe_presence, learn_result, take_value, take_error, take_result, reply,
  reply_to, rpc,
}
use dst_server.Driver.Requests.{
  dispatch, mark_written, expire, expire_in, request_stop, end, telemetry, lifecycle, Native, stats,
  malformed, other, master_ready, session, saved,
}
use dst_server.Driver.Steps.{
  Event, bootstraps, controls, replies, ends_command, lives, reports, breaks, dispatches, writes,
  expires, exits, checked, step,
}

module _ {V : Type 0} where
  -- The request is pending, has no answer yet, and nothing has been sent to its sender.
  abbrev pub Waits : String → Option (Pending V) → Type 0
  Waits id none = ⊥
  Waits id (some p) =
      (p.record_of.id ≡ id) × ((p.record_of.completed ≡ false) × (p.response ≡ waiting))

  -- The record of a request is complete, and holds the answer that its sender was sent.
  abbrev pub IsAnswered : RequestRecord V → Response V → Type 0
  IsAnswered r waiting = ⊥
  IsAnswered r (answered (ok value)) =
      (r.completed ≡ true) × ((r.result ≡ some value) × (r.error ≡ none))
  IsAnswered r (answered (err e)) = (r.completed ≡ true) × (r.error ≡ some e)

  -- The request was the last one heard of, and is answered.
  abbrev pub Completed : String → Option (RequestRecord V) → Response V → Type 0
  Completed id none answer = ⊥
  Completed id (some r) answer = (r.id ≡ id) × IsAnswered r answer

  -- No other request has taken its place.
  abbrev pub Placed : String → Option (Pending V) → Type 0
  Placed id none = Unit
  Placed id (some p) = p.record_of.id ≡ id

  abbrev pub Kept : String → Shared V → Type 0
  Kept id s =
      Waits id s.active ⊎ (Completed id s.state.recent_request s.receiver × Placed id s.active)

  -- A frame that stops the driver has left the request as it was.
  abbrev Handles : String → Handled V → Type 0
  Handles id (s, ok _) = Kept id s
  Handles id (s, err _) = Waits id s.active

  deliver-answers :
      (p : Pending V) (result : DriverResult V)
      → p.response ≡ waiting
      → ((deliver p result).record_of.id ≡ p.record_of.id)
        × IsAnswered (deliver p result).record_of (deliver p result).response
  unfolding deliver
  deliver-answers p (ok v) e = rw e (refl, (refl, (refl, refl)))
  deliver-answers p (err f) e = rw e (refl, (refl, refl))

module _ {V : Type 0} (J : Json V) (id : String) where
  advance-Kept : (s : Shared V) (g : ℕ) → Waits id s.active → Kept id (advance_generation s g).0
  unfolding advance_generation drop_request
  advance-Kept s g w = grind (arith, deliver-answers, w)

  fail-Kept : (s : Shared V) (e : String) → Waits id s.active → Kept id (fail s e)
  unfolding fail
  fail-Kept s e w = grind (arith, deliver-answers, w)

  checked-Kept : (r : Handled V) → Handles id r → Kept id (checked J r)
  checked-Kept (s, ok _) h = h
  checked-Kept (s, err e) w = fail-Kept s e w

  Waits-Handles : (r : Handled V) → Waits id r.0.active → Handles id r
  Waits-Handles (s, ok _) w = inl w
  Waits-Handles (s, err e) w = w

  bootstrap-Handles :
      (s : Shared V) (payload : Option V) → Waits id s.active → Handles id (bootstrap J s payload)
  unfolding bootstrap boot start_world recompute_ready
  bootstrap-Handles s payload w = grind (arith, advance-Kept, w)

  control-Handles :
      (s : Shared V) (payload : Option V) → Waits id s.active → Handles id (control J s payload)
  unfolding control keep_control
  control-Handles s payload w = grind (arith, advance-Kept, w)

  learn_result-active :
      (s : Shared V) (p : Pending V) (v : V) (u : String)
      → Holds (λ r. r.0.active ≡ s.active) (learn_result J s p v u)
  unfolding learn_result observe_presence
  learn_result-active s p v u = ground arith

  -- A result goes to the request that waits.
  take_result-Waits :
      (s : Shared V) (p : Pending V) (r : V) (b : Bool) (u : String)
      → Waits id (some p)
      → Waits id (take_result J s p r b u).0.active
  unfolding take_result take_value take_error
  take_result-Waits s p r b u w = grind (arith, learn_result-active, w)

  rpc-Waits :
      (s : Shared V) (payload : Option V) (u : String)
      → Waits id s.active
      → Waits id (rpc J s payload u).0.active
  unfolding rpc reply_to reply
  rpc-Waits s payload u w = grind (arith, take_result-Waits, w)

  lifecycle-Waits :
      (s : Shared V) (line : Native V) → Waits id s.active → Waits id (lifecycle J s line).0.active
  unfolding lifecycle
  lifecycle-Waits s stats w = w
  lifecycle-Waits s malformed w = w
  lifecycle-Waits s other w = w
  lifecycle-Waits s master_ready w = w
  lifecycle-Waits s (session i) w = ground (arith, w)
  lifecycle-Waits s (saved path snapshot) w = w
  lifecycle-Waits s Native.stops w = w

  -- No event loses a request that waits for its answer. It waits on, in its place, and its sender
  -- has been sent nothing; or it is answered: it is the last request heard of, its record is
  -- complete and holds, as its result or its error, the very answer that its sender was sent, and
  -- no other request has taken its place.
  pub step-Kept : (s : Shared V) (e : Event V) → Waits id s.active → Kept id (step J s e)
  unfolding step
  step-Kept s (bootstraps payload) w =
      checked-Kept (bootstrap J s payload) (bootstrap-Handles s payload w)
  step-Kept s (controls payload) w =
      checked-Kept (control J s payload) (control-Handles s payload w)
  step-Kept s (replies payload u) w =
      checked-Kept (rpc J s payload u) (Waits-Handles (rpc J s payload u) (rpc-Waits s payload u w))
  step-Kept s (ends_command is_busy) w = unfold native_barrier in grind (arith, deliver-answers, w)
  step-Kept s (lives line) w =
      checked-Kept (lifecycle J s line)
        (Waits-Handles (lifecycle J s line) (lifecycle-Waits s line w))
  step-Kept s (reports t) w = unfold telemetry in ground (arith, w)
  step-Kept s (breaks text) w = fail-Kept s text w
  step-Kept s (dispatches r) w = unfold dispatch in ground (arith, w)
  step-Kept s writes w = unfold mark_written in ground (arith, w)
  step-Kept s (expires i text) w = unfold expire expire_in in grind (arith, deliver-answers, w)
  step-Kept s Event.stops w = unfold request_stop in inl w
  step-Kept s (exits report) w = unfold end in grind (arith, deliver-answers, w)

  -- At some point of a history the request is the last one heard of, and answered.
  abbrev pub Reports : Shared V → List (Event V) → Type 0
  Reports s [] = Completed id s.state.recent_request s.receiver
  Reports s (e ∷ es) = Completed id s.state.recent_request s.receiver ⊎ Reports (step J s e) es

  Reports-now :
      (s : Shared V) (es : List (Event V))
      → Completed id s.state.recent_request s.receiver
      → Reports s es
  Reports-now s [] c = c
  Reports-now s (e ∷ es) c = inl c

  end-Completed :
      (s : Shared V) (report : Result String ExitReport)
      → Waits id s.active
      → Completed id (end s report).state.recent_request (end s report).receiver
  unfolding end
  end-Completed s report w = grind (arith, deliver-answers, w)

  -- A request that waits when the game's process is about to end, some events later, is answered
  -- at some point, at the latest by that end: its record is complete and holds, as its result or
  -- its error, the very answer that its sender was sent. No history leaves it open.
  pub exit-Reports :
      (s : Shared V) (es : List (Event V)) (report : Result String ExitReport)
      → Waits id s.active
      → Reports s (es ++ (exits report ∷ []))
  unfolding step
  exit-Reports s [] report w = inr (end-Completed s report w)
  exit-Reports s (e ∷ es) report w = elim (step-Kept s e w) [
    | inl waits ↦ inr (exit-Reports (step J s e) es report waits)
    | inr (completed, _) ↦ inr (Reports-now (step J s e) (es ++ (exits report ∷ [])) completed)
  ]
