-- ===== src/Driver/Steps.antt =====
-- What happens to the state of crates/dst-server/src/driver.rs, one event after another: frames and
-- lines of the game, the steps of a request, a failure of the output, a stop and the end.
use dst_server.Base.{String, Bool, Option, List, [], ◌∷◌, Result, ok, err}
use dst_server.Driver.State.{Json, RequestRecord, Shared}
use dst_server.Driver.Handlers.{Handled, bootstrap, control, fail}
use dst_server.Driver.Replies.{rpc, native_barrier}
use dst_server.Driver.Requests.{
  ExitReport, Native, Telemetry, dispatch, mark_written, expire, request_stop, end, telemetry,
  lifecycle,
}

pub data Event (V : Type 0) : Type 0 where
  bootstraps controls : Option V → Event V
  replies : Option V → String → Event V
  ends_command : Bool → Event V
  lives : Native V → Event V
  reports : Option Telemetry → Event V
  breaks : String → Event V
  dispatches : RequestRecord V → Event V
  writes : Event V
  expires : String → String → Event V
  stops : Event V
  exits : Result String ExitReport → Event V

module _ {V : Type 0} (J : Json V) where
  -- `pump` stops the driver on a frame that is not acceptable.
  abbrev pub checked : Handled V → Shared V
  checked (s, ok _) = s
  checked (s, err e) = fail s e

  unfoldable pub step : Shared V → Event V → Shared V
  step s (bootstraps payload) = checked (bootstrap J s payload)
  step s (controls payload) = checked (control J s payload)
  step s (replies payload ulid) = checked (rpc J s payload ulid)
  step s (ends_command is_busy) = native_barrier s is_busy
  step s (lives line) = checked (lifecycle J s line)
  step s (reports record_of) = (telemetry s record_of).0
  step s (breaks text) = fail s text
  step s (dispatches r) = (dispatch s r).0
  step s writes = mark_written s
  step s (expires id text) = (expire s id text).0
  step s stops = request_stop s
  step s (exits report) = end s report

  unfoldable pub run : Shared V → List (Event V) → Shared V
  run s [] = s
  run s (e ∷ es) = run (step s e) es
