-- ===== src/Driver/Requests.antt =====
-- Requests to the game, and its end, in crates/dst-server/src/driver.rs; and the records of the
-- game's lifecycle and telemetry.
use dst_server.Base.{
  ℕ, ◌+◌, ◌-◌, String, Bool, true, false, not, ◌||◌, Option, none, some, Result, ok, err,
  is_some_and, text_eq, text_is_empty, ltb, leb, if◌then◌else◌,
}
use Prim.Native.String.{len}
use dst_server.Driver.State.{
  Json, DriverError, DriverResult, RequestRecord, waiting, Pending, DriverState, Shared,
  plain_error, not_ready, unknown, deliver, recompute_ready, is_none_of, same_generation,
}
use dst_server.Driver.Handlers.{Handled, in_state, answer_active}
use dst_server.Driver.Replies.{held_or, finish_active}

-- What the game's process reports at its end.
pub record ExitReport : Type 0 where
  pub returncode : Option (Bool × ℕ)
  pub forced : Bool
  pub output_drained : Bool
  pub protocol_error : Option String

-- The native lifecycle lines, with the text that follows the name.
pub data Native (V : Type 0) : Type 0 where
  stats master_ready : Native V
  session : String → Native V
  saved : String → Option ℕ → Native V
  stops other malformed : Native V

-- A telemetry record that `events::parse` accepts, as far as the driver reads it.
pub record Telemetry : Type 0 where
  pub nonce : String
  pub generation : ℕ
  pub sequence : ℕ

abbrev first_failure : Option String → String → Option String
first_failure none text = some text
first_failure (some first) text = some first

-- `protocol_error` of a report, behind a failure on record.
abbrev noted_failure : Option String → Option String → Option String
noted_failure failure none = failure
noted_failure failure (some e) = first_failure failure e

module _ {V : Type 0} where
  -- The first step of a round of `execute`: the request takes the place of the active command, if
  -- that has its answer.
  unfoldable pub dispatch : Shared V → RequestRecord V → Shared V × Result DriverError (Unit {0})
  dispatch s r =
      if not s.state.ready
        || (s.state.stopping || not (same_generation s.state.generation (some r.generation)))
      then (s, err (plain_error not_ready "shard generation or readiness changed before dispatch"))
      else if is_some_and s.active (λ p. not p.record_of.completed)
      then (s, err (plain_error not_ready "previous native command is still pending"))
      else (
        answer_active s (record {
          record_of = r;
          result = none;
          response = waiting;
          synchronized = is_none_of s.active;
        }),
        ok tt,
      )

  -- The request has been written to the game.
  unfoldable pub mark_written : Shared V → Shared V
  mark_written s = elim s.active [
    | none ↦ s
    | some p ↦ answer_active s (record p { record_of = record (p.record_of) { written = true } })
  ]

  unfoldable pub expire_in :
      Shared V → Option (Pending V) → String → String → Shared V × DriverResult V
  expire_in s none id text = (s, err (plain_error unknown text))
  expire_in s (some p) id text =
      if text_eq p.record_of.id id
      then (answer_active s (deliver p (held_or p unknown text)), held_or p unknown text)
      else (s, err (plain_error unknown text))

  unfoldable pub expire : Shared V → String → String → Shared V × DriverResult V
  unfolding expire_in
  expire s id text = expire_in s s.active id text

  -- The first step of `stop_native`.
  unfoldable pub request_stop : Shared V → Shared V
  request_stop s = record s {
    state = record (s.state) { stopping = true; ready = false };
    stop_requested = true;
  }

  -- What the end of the process says about the state: a report, or why there is none.
  unfoldable pub record_exit : DriverState V → Result String ExitReport → DriverState V
  record_exit s (err e) = record s { failure = first_failure s.failure e }
  record_exit s (ok report) =
      let noted = noted_failure s.failure report.protocol_error in
      record s {
        returncode = report.returncode;
        forced = report.forced;
        output_drained = report.output_drained;
        failure =
            if report.output_drained
            then noted
            else first_failure noted "game output did not drain";
      }

  -- The end of `pump`.
  unfoldable pub end : Shared V → Result String ExitReport → Shared V
  end s report =
      let t =
        in_state s (record_exit (record (s.state) { running = false; ready = false }) report) in
      elim s.active [
        | none ↦ t
        | some p ↦ finish_active t p (held_or p unknown "game exited before command completion")
      ]

  -- `telemetry`, which tells whether the event is passed on.
  unfoldable pub telemetry : Shared V → Option Telemetry → Shared V × Bool
  telemetry s none =
      (in_state s (record (s.state) { invalid_telemetry = s.state.invalid_telemetry + 1 }), false)
  telemetry s (some t) =
      if not (text_eq t.nonce s.state.nonce)
      then (
        in_state s (record (s.state) { invalid_telemetry = s.state.invalid_telemetry + 1 }),
        false,
      )
      else if not (same_generation (some t.generation) s.state.generation)
          || leb t.sequence s.state.telemetry_sequence
      then (in_state s (record (s.state) { stale_telemetry = s.state.stale_telemetry + 1 }), false)
      else (
        in_state s (record (s.state) {
          telemetry_gaps = s.state.telemetry_gaps + (t.sequence - s.state.telemetry_sequence - 1);
          telemetry_sequence = t.sequence;
        }),
        true,
      )

module _ {V : Type 0} (J : Json V) where
  unfoldable pub lifecycle : Shared V → Native V → Handled V
  lifecycle s stats = (s, ok tt)
  lifecycle s malformed = (s, err "invalid lifecycle UTF-8")
  lifecycle s other = (s, ok tt)
  lifecycle s master_ready =
      (in_state s (recompute_ready J (record (s.state) { native_ready = true })), ok tt)
  lifecycle s (session identity) =
      if text_is_empty identity || ltb 128 (len identity)
      then (s, err "invalid native session identity")
      else (
        in_state s (
            recompute_ready J
              (record (s.state) { session_id = some identity; native_ready = true })),
        ok tt,
      )
  lifecycle s (saved path snapshot) = (
    in_state s (record (s.state) { last_native_save = some (J.saved_record path snapshot) }),
    ok tt,
  )
  lifecycle s stops = (in_state s (record (s.state) { stopping = true; ready = false }), ok tt)
