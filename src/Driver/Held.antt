-- ===== src/Driver/Held.antt =====
-- The result of the game that crates/dst-server/src/driver.rs holds until the native command ends.
use dst_server.Base.{◌≡◌, refl, String, Bool, true, false, some, Result, arith, text_eq_iff}
use dst_server.Driver.State.{Json, DriverResult, waiting, answered, Pending, Shared, deliver}
use dst_server.Driver.Replies.{native_barrier}
use dst_server.Driver.Requests.{ExitReport, expire, expire_in, end}
use dst_server.Driver.Steps.{
  Event, bootstraps, controls, replies, ends_command, lives, reports, breaks, dispatches, writes,
  expires, exits, step,
}

module _ {V : Type 0} where
  -- The pending request waits for the end of its command, with the result of the game.
  pub record IsHeld (id : String) (s : Shared V) (r : DriverResult V) : Type 0 where
    pub pending : Pending V
    pub active_is : s.active ≡ some pending
    pub id_is : pending.record_of.id ≡ id
    pub unanswered : pending.response ≡ waiting
    pub held : pending.result ≡ some r
    pub framed : pending.synchronized ≡ true

  -- The events that end a command: its last marker, the request's deadline, the process's end.
  pub data Ends (id : String) : Event V → Type 0 where
    done : (is_busy : Bool) → is_busy ≡ false → Ends id (ends_command is_busy)
    late : (other text : String) → other ≡ id → Ends id (expires other text)
    gone : (report : Result String ExitReport) → Ends id (exits report)

module _ {V : Type 0} (J : Json V) (id : String) where
  -- A result that the game gave for a request is the answer that its sender is sent, in whichever
  -- way the command ends: with its marker, at its deadline, or with the process.
  pub step-held :
      (s : Shared V) (e : Event V) (r : DriverResult V)
      → IsHeld id s r
      → Ends id e
      → (step J s e).receiver ≡ answered r
  unfolding step
  step-held s (bootstraps _) r h ends = elim ends [ ]
  step-held s (controls _) r h ends = elim ends [ ]
  step-held s (replies _ _) r h ends = elim ends [ ]
  step-held s (lives _) r h ends = elim ends [ ]
  step-held s (reports _) r h ends = elim ends [ ]
  step-held s (breaks _) r h ends = elim ends [ ]
  step-held s (dispatches _) r h ends = elim ends [ ]
  step-held s writes r h ends = elim ends [ ]
  step-held s Event.stops r h ends = elim ends [ ]
  step-held s (ends_command is_busy) r h (done _ b) =
      unfold native_barrier deliver in rw (h.active_is, h.framed, b, h.held, h.unanswered) refl
  step-held s (expires other text) r h (late _ _ i) =
      unfold expire expire_in deliver in
      grind (arith, h.active_is, h.id_is, h.held, h.unanswered, i, text_eq_iff)
  step-held s (exits report) r h (gone _) =
      unfold end deliver in rw (h.active_is, h.held, h.unanswered) refl
