-- ===== src/Rpc/Envelopes/RoundTrip.antt =====
-- Outcomes and envelopes are read back: a validated request's countdown has texts and numbers as its
-- parameters.
use dst_server.Base.{
  ℕ, ◌+◌, ◌-◌, ◌≤◌, ◌≡◌, refl, some, ok, err, ◌>>=◌, ◌>>◌, Holds, Holds-then, Holds-bind, Holds-map,
  Holds-ok, ap, inl, inr, Result-cases, arith,
}
use dst_server.Model.Json.{Value, Numbers}
use dst_server.Model.Requests.{ErrorCode, Error, Answer, Target, Envelope}
use dst_server.Model.Validation.{Host}
use dst_server.Model.Envelopes.{validate_envelope}
use dst_server.Rpc.Values.{take_text, write_value}
use dst_server.Rpc.Values.RoundTrip.{NumberLaws, IsExact, read_value-write_value}
use dst_server.Rpc.Values.Bounds.{take_text-Holds}
use dst_server.Rpc.Schema.{WireOutcome, WireEnvelope}
use dst_server.Rpc.Requests.{max_message, followed, pointer, read_root, write_request}
use dst_server.Rpc.Requests.RoundTrip.{read_request-write_request, follow-pointer}
use dst_server.Rpc.Envelopes.Valid.{IsExactPart, validated-Exact}
use dst_server.Rpc.Envelopes.{
  Sizes, write_error_code, read_error_code, check_size, write_target, read_target, write_error,
  read_error, write_outcome, encode_outcome, read_outcome, encode_envelope, read_envelope, carried,
}

read-write_error_code : (c : ErrorCode) → read_error_code (write_error_code c) ≡ c
read-write_error_code ErrorCode.invalid = refl
read-write_error_code ErrorCode.not_ready = refl
read-write_error_code ErrorCode.busy = refl
read-write_error_code ErrorCode.unsupported = refl
read-write_error_code ErrorCode.not_found = refl
read-write_error_code ErrorCode.conflict = refl
read-write_error_code ErrorCode.partial_failure = refl
read-write_error_code ErrorCode.unknown = refl
read-write_error_code ErrorCode.transport = refl
read-write_error_code ErrorCode.timeout = refl
read-write_error_code ErrorCode.overflow = refl
read-write_error_code ErrorCode.stale_reference = refl
read-write_error_code ErrorCode.lua = refl
read-write_error_code ErrorCode.protocol = refl
read-write_error_code ErrorCode.internal = refl

module _ (sizes : Sizes) {N : Type 0} (J : Numbers N) (L : NumberLaws J) where
  abbrev pub IsExactAnswer : Answer N (Value N) → Type 0
  IsExactAnswer (ok v) = IsExact J v
  IsExactAnswer (err e) = IsExact J e.details

  -- Details that were written within a part of the budget.
  root-more :
      (left : ℕ) (v : Value N)
      → IsExact J v
      → left ≤ max_message
      → Holds (λ r. read_root J (ok r.1) ≡ ok v) (write_value J left 0 v)
  unfolding read_root
  root-more left v x l =
      let k = max_message - left in
      let full : left + k ≡ max_message = omega arith in
      Holds-map _ _ (write_value J left 0 v) (λ r _ h. let t = rw full at h in rw t)
        (read_value-write_value J L k left 0 v x)

  error-Holds :
      (e : Error N)
      → IsExact J e.details
      → Holds (λ w. read_error sizes J w ≡ ok e) (write_error sizes J e)
  unfolding write_error read_error
  error-Holds e x =
      Holds-bind _ _ (take_text max_message e.message) _
        (λ left _ l.
          Holds-bind _ _ (write_value J left 0 e.details) _
            (λ r _ h. rw (read-write_error_code e.code, h)) (root-more left e.details x l))
        (take_text-Holds N max_message e.message)

  outcome-Holds :
      (a : Answer N (Value N))
      → IsExactAnswer a
      → (size : ℕ × ℕ)
      → Holds
          (λ w.
            Sizes.of_outcome sizes w ≡ ok size
            → check_size {N = N} size max_message ≡ ok tt
            → read_outcome sizes J w ≡ a)
          (write_outcome sizes J a)
  unfolding write_outcome read_outcome
  outcome-Holds (ok v) x size =
      Holds-bind _ _ (write_value J max_message 0 v) _ (λ r _ h. λ e f. rw (e, f) (ap carried h))
        (root-more max_message v x (omega arith))
  outcome-Holds (err e) x size =
      Holds-bind _ _ (write_error sizes J e) _
        (λ w _ h. λ e f. rw (e, f) (ap (λ m. carried m >>= λ g. err g) h)) (error-Holds e x)

  sized-outcome :
      (a : Answer N (Value N)) (w : WireOutcome)
      → ((size : ℕ × ℕ)
          → Sizes.of_outcome sizes w ≡ ok size
          → check_size {N = N} size max_message ≡ ok tt
          → read_outcome sizes J w ≡ a)
      → Holds
          (λ w. read_outcome sizes J w ≡ a)
          (followed {N = N} (Sizes.of_outcome sizes w) >>= λ size.
            check_size size max_message >> ok w)
  sized-outcome a w h = elim (Result-cases (Sizes.of_outcome sizes w)) [
    | inl (size, e) ↦ rw e (
        Holds-then (λ w. read_outcome sizes J w ≡ a) (check_size size max_message) (λ _. ok w)
          (λ _ f. h size e f))
    | inr (m, e) ↦ rw e tt
  ]

  -- An outcome that is encoded, a value with exact numbers or an error whose details have them, is
  -- read back.
  pub read_outcome-encode_outcome :
      (a : Answer N (Value N))
      → IsExactAnswer a
      → Holds (λ w. read_outcome sizes J w ≡ a) (encode_outcome sizes J a)
  unfolding encode_outcome
  read_outcome-encode_outcome a x = elim (Result-cases (write_outcome sizes J a)) [
    | inl (w, e) ↦ rw e (
        sized-outcome a w (λ size.
          Holds-ok
            (λ w.
              Sizes.of_outcome sizes w ≡ ok size
              → check_size {N = N} size max_message ≡ ok tt
              → read_outcome sizes J w ≡ a)
            (outcome-Holds a x size) e))
    | inr (m, e) ↦ rw e tt
  ]

  module _ (host : Host) where
    target-Holds : (t : Target) → read_target {N = N} (write_target t) ≡ ok t
    unfolding read_target
    target-Holds Target.room = refl
    target-Holds (Target.shard name) = refl

    -- An envelope that is encoded is read back: what is validated reads as it was written. The JSON
    -- values that its request carries, parameters of a countdown, a configuration or a policy, have
    -- their numbers in the form in which they are read, and the keys of their maps in order.
    pub read_envelope-encode_envelope :
        (e : Envelope N)
        → IsExactPart J e.request
        → Holds (λ w. read_envelope sizes J host w ≡ ok e) (encode_envelope sizes J host e)
    unfolding encode_envelope read_envelope
    read_envelope-encode_envelope e x =
        Holds-bind _ _ (validate_envelope host J e) _
          (λ _ v f.
            Holds-bind _ _ (write_request J e.request) _
              (λ r _ h.
                let w : WireEnvelope = record {
                  target = some (ok (write_target e.target));
                  request = some (ok r);
                  timeout = pointer e.timeout;
                } in
                Holds-then _ (followed (Sizes.of_envelope sizes w)) _ (λ size s.
                  Holds-then _ (check_size size max_message) _ (λ _ c.
                    rw (s, c, target-Holds e.target, h, follow-pointer {N = N} e.timeout, v))))
              (read_request-write_request J L e.request f))
          (validated-Exact host J e x)
