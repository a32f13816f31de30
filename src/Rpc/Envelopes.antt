-- ===== src/Rpc/Envelopes.antt =====
-- Envelopes, outcomes and errors: how crates/dst-server/src/rpc/codec.rs encodes and reads them, and
-- `read_outcome` of crates/dst-server/src/rpc.rs.
pub mod Valid
pub mod RoundTrip
use dst_server.Base.{
  ℕ, ◌/◌, String, Bool, true, false, not, ◌||◌, Option, none, some, Result, ok, err, ◌>>=◌, ◌>>◌,
  ltb, ◌==◌, if◌then◌else◌,
}
use dst_server.Base.Float.{F64}
use dst_server.Model.Json.{Value, Numbers}
use dst_server.Model.Requests.{ErrorCode, Error, new_error, Answer, Target, Request, Envelope}
use dst_server.Model.Validation.{Host}
use dst_server.Model.Envelopes.{validate_envelope}
use dst_server.Rpc.Values.{
  Wire, WireText, utf8, read_text, take_text, write_value, read_value_with_budget,
}
use dst_server.Rpc.Schema
use dst_server.Rpc.Schema.{
  Read, WireRequest, WireErrorCode, WireError, WireOutcome, WireTarget, WireEnvelope,
}
use dst_server.Rpc.Requests.{
  max_message, pointer, followed, follow, read_root, write_request, read_request,
}

-- capnp's `total_size`: the words of a message and its capabilities.
pub record Sizes : Type 0 where
  pub of_value : Wire → Read (ℕ × ℕ)
  pub of_outcome : WireOutcome → Read (ℕ × ℕ)
  pub of_envelope : WireEnvelope → Read (ℕ × ℕ)

abbrev pub write_error_code : ErrorCode → WireErrorCode
write_error_code ErrorCode.invalid = WireErrorCode.invalid
write_error_code ErrorCode.not_ready = WireErrorCode.not_ready
write_error_code ErrorCode.busy = WireErrorCode.busy
write_error_code ErrorCode.unsupported = WireErrorCode.unsupported
write_error_code ErrorCode.not_found = WireErrorCode.not_found
write_error_code ErrorCode.conflict = WireErrorCode.conflict
write_error_code ErrorCode.partial_failure = WireErrorCode.partial_failure
write_error_code ErrorCode.unknown = WireErrorCode.unknown
write_error_code ErrorCode.transport = WireErrorCode.transport
write_error_code ErrorCode.timeout = WireErrorCode.timeout
write_error_code ErrorCode.overflow = WireErrorCode.overflow
write_error_code ErrorCode.stale_reference = WireErrorCode.stale_reference
write_error_code ErrorCode.lua = WireErrorCode.lua
write_error_code ErrorCode.protocol = WireErrorCode.protocol
write_error_code ErrorCode.internal = WireErrorCode.internal

abbrev pub read_error_code : WireErrorCode → ErrorCode
read_error_code WireErrorCode.invalid = ErrorCode.invalid
read_error_code WireErrorCode.not_ready = ErrorCode.not_ready
read_error_code WireErrorCode.busy = ErrorCode.busy
read_error_code WireErrorCode.unsupported = ErrorCode.unsupported
read_error_code WireErrorCode.not_found = ErrorCode.not_found
read_error_code WireErrorCode.conflict = ErrorCode.conflict
read_error_code WireErrorCode.partial_failure = ErrorCode.partial_failure
read_error_code WireErrorCode.unknown = ErrorCode.unknown
read_error_code WireErrorCode.transport = ErrorCode.transport
read_error_code WireErrorCode.timeout = ErrorCode.timeout
read_error_code WireErrorCode.overflow = ErrorCode.overflow
read_error_code WireErrorCode.stale_reference = ErrorCode.stale_reference
read_error_code WireErrorCode.lua = ErrorCode.lua
read_error_code WireErrorCode.protocol = ErrorCode.protocol
read_error_code WireErrorCode.internal = ErrorCode.internal

abbrev pub write_target : Target → WireTarget
write_target Target.room = WireTarget.room
write_target (Target.shard name) = WireTarget.shard (utf8 name)

module _ {N : Type 0} where
  unfoldable pub check_size : ℕ × ℕ → ℕ → Answer N (Unit {0})
  check_size (words, caps) limit =
      if ltb (limit / 8) words || not (caps == 0)
      then err (new_error ErrorCode.overflow "RPC value exceeds its size limit")
      else ok tt

  -- `map_err(transport)`, on capnp's reports and on the codec's errors.
  abbrev pub transported : {A : Type 0} → Read A → Answer N A
  transported (ok a) = ok a
  transported (err m) = err (new_error ErrorCode.transport m)

  abbrev pub carried : {A : Type 0} → Answer N A → Answer N A
  carried (ok a) = ok a
  carried (err e) = err (new_error ErrorCode.transport e.message)

  unfoldable pub read_target : WireTarget → Answer N Target
  read_target WireTarget.room = ok Target.room
  read_target (WireTarget.shard t) = do name ← read_text t; ok (Target.shard name)

  -- Both pointers of an envelope, where they are there.
  abbrev pub both : {A B : Type 0} → Option A → Option B → Answer N (A × B)
  both (some a) (some b) = ok (a, b)
  both _ _ = err (new_error ErrorCode.invalid "RPC request requires a target and command")

module _ (sizes : Sizes) {N : Type 0} (J : Numbers N) where
  unfoldable pub encode_value : Value N → ℕ → Answer N Wire
  unfolding write_value check_size
  encode_value v limit = do
    (rest, w) ← write_value J limit 0 v
    size ← followed (Sizes.of_value sizes w)
    check_size size limit
    ok w

  -- The message and the details share a budget.
  unfoldable pub write_error : Error N → Answer N WireError
  unfolding take_text write_value
  write_error e = do
    left ← take_text max_message e.message
    (rest, w) ← write_value J left 0 e.details
    ok (record { code = ok (write_error_code e.code); message = utf8 e.message; details = ok w })

  unfoldable pub read_error : WireError → Answer N (Error N)
  unfolding read_root
  read_error w = do
    c ← followed w.code
    m ← read_text w.message
    v ← read_root J w.details
    ok (record { code = read_error_code c; message = m; details = v })

  -- The match of `encode_outcome`.
  unfoldable pub write_outcome : Answer N (Value N) → Answer N WireOutcome
  unfolding write_value write_error
  write_outcome (ok v) = do (rest, w) ← write_value J max_message 0 v; ok (WireOutcome.value (ok w))
  write_outcome (err e) = do w ← write_error e; ok (WireOutcome.error (ok w))

  unfoldable pub encode_outcome : Answer N (Value N) → Answer N WireOutcome
  unfolding write_outcome check_size
  encode_outcome result = do
    w ← write_outcome result
    size ← followed (Sizes.of_outcome sizes w)
    check_size size max_message
    ok w

  unfoldable pub read_outcome : WireOutcome → Answer N (Value N)
  unfolding check_size read_root read_error
  read_outcome w = do
    size ← transported (Sizes.of_outcome sizes w)
    check_size size max_message
    elim w [
      | WireOutcome.value r ↦ do v ← transported r; carried (read_root J (ok v))
      | WireOutcome.error r ↦ do e ← transported r; f ← carried (read_error e); err f
      | WireOutcome.unreadable m ↦ err (new_error ErrorCode.transport m)
    ]

  module _ (host : Host) where
    unfoldable pub encode_envelope : Envelope N → Answer N WireEnvelope
    unfolding validate_envelope write_request check_size
    encode_envelope e = do
      validate_envelope host J e
      r ← write_request J e.request
      let w : WireEnvelope = record {
        target = some (ok (write_target e.target));
        request = some (ok r);
        timeout = pointer e.timeout;
      }
      size ← followed (Sizes.of_envelope sizes w)
      check_size size max_message
      ok w

    unfoldable pub read_envelope : WireEnvelope → Answer N (Envelope N)
    unfolding validate_envelope read_target read_request check_size
    read_envelope w = do
      size ← followed (Sizes.of_envelope sizes w)
      check_size size max_message
      (t, r) ← both w.target w.request
      where_to ← followed t
      target ← read_target where_to
      what ← followed r
      request ← read_request J what
      timeout ← follow w.timeout
      let e : Envelope N = record { target = target; request = request; timeout = timeout }
      validate_envelope host J e
      ok e
