-- ===== src/Driver/Handlers.antt =====
-- The frames of the game in crates/dst-server/src/driver.rs that tell of the world and its health.
-- A payload is what serde_json parsed, or `none`. Each handler returns the state and whether the
-- frame was acceptable; a frame that is not stops the driver (`fail`).
use dst_server.Base.{
  ℕ, ◌+◌, String, Bool, true, false, not, ◌&&◌, ◌||◌, Option, none, some, List, [], ◌∷◌, ◌++◌,
  Result, ok, err, is_some_and, any, length, text_eq, ltb, ◌==◌, if◌then◌else◌, ◌⧺◌,
}
use dst_server.Driver.State.{
  Json, Pending, DriverState, Shared, unknown, pending_error, deliver, safe_integer,
  recompute_ready, is_none_of, same_generation, control_history, valid_method,
}

abbrev pub Handled : Type 0 → Type 0
Handled V = Shared V × Result String (Unit {0})

module _ {V : Type 0} where
  abbrev pub in_state : Shared V → DriverState V → Shared V
  in_state s t = record s { state = t }

  -- A pending request takes an answer, and is the one last heard of.
  abbrev pub answer_active : Shared V → Pending V → Shared V
  answer_active s p = record s {
    state = record (s.state) { recent_request = some p.record_of };
    active = some p;
    receiver = p.response;
  }

  -- The state of a new world. A first world keeps the session that is on record.
  abbrev new_world : DriverState V → Bool → ℕ → DriverState V
  new_world s stop_requested generation = record s {
    generation = some generation;
    generation_changes =
        if is_none_of s.generation then s.generation_changes else s.generation_changes + 1;
    session_id = if is_none_of s.generation then s.session_id else none;
    stopping = stop_requested;
    ready = false;
    health = none;
    runtime = none;
    last_control = none;
    load_failure = none;
    control_records = [];
    telemetry_sequence = 0;
  }

  -- A request to another world is answered: its outcome is unknown.
  unfoldable pub drop_request : Shared V → Option (Pending V) → ℕ → Shared V
  drop_request s none generation = s
  drop_request s (some p) generation =
      if p.record_of.generation == generation
      then s
      else answer_active s (
          deliver p (
            err (pending_error p unknown "world generation changed while the command was pending")))

  unfoldable pub advance_generation : Shared V → ℕ → Shared V × Bool
  advance_generation s generation =
      if is_some_and s.state.generation (λ current. ltb generation current)
      then (s, false)
      else if same_generation s.state.generation (some generation)
      then (s, true)
      else (
        drop_request
            (record s { state = new_world s.state s.stop_requested generation; observation = none })
            s.active generation,
        true,
      )

  -- `Inner::fail`, less the diagnostic and the kill of the process.
  unfoldable pub fail : Shared V → String → Shared V
  fail s text =
      let t = record (s.state) {
        failure = some (elim s.state.failure [ none ↦ text | some first ↦ first ]);
        ready = false;
      } in
      elim s.active [
        | none ↦ in_state s t
        | some p ↦ answer_active (in_state s t) (
            deliver p (err (pending_error p unknown "control failed after command dispatch began")))
      ]

  abbrev drop_first : List V → List V
  drop_first [] = []
  drop_first (r ∷ rs) = rs

  -- The history of control records holds the last 128.
  unfoldable pub push_control : List V → V → List V
  push_control rs r = (if length rs == control_history then drop_first rs else rs) ++ (r ∷ [])

module _ {V : Type 0} (J : Json V) where
  unfoldable pub mandatory_record : String → Option V → Result String V
  mandatory_record nonce none = err "malformed mandatory JSON frame"
  mandatory_record nonce (some value) =
      if not (J.is_object value)
        || not (is_some_and (J.as_text (J.index value "nonce")) (λ t. text_eq t nonce))
      then err "mandatory frame has an invalid nonce or envelope"
      else ok value

  abbrev valid_health : V → Bool
  valid_health health =
      J.is_number (J.index health "protocol") 3
      && (J.is_object (J.index health "capabilities")
          && any (λ status. J.is_text (J.index health "telemetry_status") status)
              ("disabled" ∷ "active" ∷ "degraded" ∷ "failed" ∷ []))

  abbrev is_stale : Option ℕ → Option ℕ → Bool
  is_stale (some received) (some current) = ltb received current
  is_stale _ _ = false

  abbrev keep_health : DriverState V → Option V → DriverState V
  keep_health s none = s
  keep_health s (some health) = record s { health = some health }

  -- The change that an acceptable bootstrap record makes.
  unfoldable pub start_world : Shared V → ℕ → Option V → Shared V
  start_world s generation health =
      let (next, current) = advance_generation s generation in
      if current then in_state next (recompute_ready J (keep_health next.state health)) else next

  abbrev health_or : Option V → V → V
  health_or none record_of = record_of
  health_or (some health) record_of = health

  unfoldable pub boot : Shared V → V → Handled V
  boot s r =
      if not (is_none_of (J.get r "error"))
      then (if is_stale (safe_integer J (J.index r "generation")) s.state.generation
          then (s, ok tt)
          else (s, err ("driver bootstrap failed: " ⧺ J.show (J.index r "error"))))
      else elim (safe_integer J (J.index (health_or (J.get r "health") r) "generation")) [
        | none ↦ (s, err "invalid driver generation")
        | some generation ↦
            if is_some_and (J.get r "health") (λ health. not (valid_health health))
            then (s, err "invalid driver health")
            else (start_world s generation (J.get r "health"), ok tt)
      ]

  unfoldable pub bootstrap : Shared V → Option V → Handled V
  bootstrap s payload = elim (mandatory_record s.state.nonce payload) [
    | err e ↦ (s, err e)
    | ok r ↦ boot s r
  ]

  unfoldable pub keep_control : Shared V → ℕ → V → Shared V
  keep_control s generation r =
      let (next, current) = advance_generation s generation in
      if current
      then in_state next (record (next.state) {
        load_failure =
            if J.is_text (J.index r "event") "world_load_failed"
            then some r
            else next.state.load_failure;
        last_control = some r;
        control_records = push_control next.state.control_records r;
      })
      else next

  unfoldable pub control : Shared V → Option V → Handled V
  control s payload = elim (mandatory_record s.state.nonce payload) [
    | err e ↦ (s, err e)
    | ok r ↦ elim (safe_integer J (J.index r "generation")) [
      | none ↦ (s, err "invalid control generation")
      | some generation ↦
          if not (J.is_number (J.index r "v") 1)
            || not (is_some_and (J.as_text (J.index r "event")) valid_method)
          then (s, err "invalid control record")
          else (keep_control s generation r, ok tt)
    ]
  ]
