-- ===== src/Recovery/Preserved.antt =====
-- Every operation of recovery.rs keeps the persisted state valid.
use dst_server.Base.{ℕ, ◌≤◌, ◌≡◌, List, String, Option, none, some, Bool, arith, Holds}
use dst_server.Recovery.State.{
  Catalogs, SavedRoom, RecoveryState, Failure, ClosedReason, FixedTarget, CurrentRetry,
  validate_retry, validate_target, reset,
}
use dst_server.Recovery.Decide.{reserve_retry, roll_back, answer, weigh, recover, decide}
use dst_server.Recovery.Operations.{
  resume, resume_target, resume_retry, resume_rest, start_retry, prepare_target, ready_target,
  settle, renew, open_window, start_again,
}
use dst_server.Recovery.Valid.{
  Parts, NonEmpty, close-valid, reset-valid, latest_room-Holds, previous_target-Holds,
}

reserve_retry-valid :
    (s : RecoveryState) (latest : SavedRoom) (now : ℕ)
    → Parts s
    → s.restarts_used ≤ 1
    → s.closed ≡ none
    → NonEmpty latest
    → Holds (λ r. Parts r.0) (reserve_retry s latest now)
unfolding reserve_retry validate_retry
reserve_retry-valid s latest now p u c n = ground arith

roll_back-valid :
    (s : RecoveryState) (latest : SavedRoom) (catalogs : Catalogs) (failed : Option ℕ)
    → Parts s
    → s.closed ≡ none
    → Holds (λ r. Parts r.0) (roll_back s latest catalogs failed)
unfolding roll_back validate_retry
roll_back-valid s latest catalogs none p c = close-valid s _ p
roll_back-valid s latest catalogs (some failed) p c =
    grind (arith, close-valid, previous_target-Holds latest catalogs failed)

module _ (s : RecoveryState) (catalogs : Catalogs) (now : ℕ) (p : Parts s)
    (c : s.closed ≡ none) where
  answer-valid :
      (latest : SavedRoom) (failed : Option ℕ)
      → NonEmpty latest
      → Holds (λ r. Parts r.0) (answer s latest catalogs now failed)
  unfolding answer
  answer-valid latest failed n = grind (
    arith,
    close-valid,
    roll_back-valid s latest catalogs failed p c,
    λ (u : s.restarts_used ≤ 1). reserve_retry-valid s latest now p u c n,
  )

  weigh-valid :
      (failure : Failure) (latest : SavedRoom)
      → NonEmpty latest
      → Holds (λ r. Parts r.0) (weigh s failure latest catalogs now)
  unfolding weigh
  weigh-valid failure latest n =
      grind (arith, close-valid, λ (f : Option ℕ). answer-valid latest f n)

  recover-valid :
      (failure : Failure) (required : List String)
      → Holds (λ r. Parts r.0) (recover s failure required catalogs now)
  unfolding recover
  recover-valid failure required = grind (
    arith,
    close-valid,
    latest_room-Holds required catalogs,
    λ (l : SavedRoom) (n : NonEmpty l). weigh-valid failure l n,
  )

pub decide-valid :
    (s : RecoveryState) (failure : Failure) (required : List String) (catalogs : Catalogs) (now : ℕ)
    → Parts s
    → Holds (λ r. Parts r.0) (decide s failure required catalogs now)
unfolding decide
decide-valid s failure required catalogs now p =
    grind (
      arith,
      close-valid,
      λ (c : s.closed ≡ none). recover-valid s catalogs now p c failure required,
    )

resume_target-valid :
    (s : RecoveryState) (t : FixedTarget) (required : List String) (catalogs : Catalogs)
    → Parts s
    → s.target ≡ some t
    → Holds (λ r. Parts r.0) (resume_target s t required catalogs)
unfolding resume_target validate_target
resume_target-valid s t required catalogs p e = grind (arith, close-valid)

resume_rest-valid :
    (s : RecoveryState) (retry : Option CurrentRetry) (required : List String) (catalogs : Catalogs)
    (now : ℕ)
    → Parts s
    → Holds (λ r. Parts r.0) (resume_rest s retry required catalogs now)
unfolding resume_rest resume_retry
resume_rest-valid s none required catalogs now p = p
resume_rest-valid s (some retry) required catalogs now p =
    grind (arith, close-valid, decide-valid s Failure.retryable required catalogs now p)

pub resume-valid :
    (s : RecoveryState) (required : List String) (catalogs : Catalogs) (now : ℕ)
    (closed : Option ClosedReason) (target : Option FixedTarget)
    → Parts s
    → s.target ≡ target
    → Holds (λ r. Parts r.0) (resume s closed target required catalogs now)
unfolding resume
resume-valid s required catalogs now (some reason) target p e = p
resume-valid s required catalogs now none none p e =
    resume_rest-valid s s.retry required catalogs now p
resume-valid s required catalogs now none (some t) p e = ground (
  arith,
  resume_target-valid s t required catalogs p e,
  resume_rest-valid s s.retry required catalogs now p,
)

pub start_retry-valid :
    (s : RecoveryState) (now : ℕ) → Parts s → Holds (λ r. Parts r.0) (start_retry now s)
unfolding start_retry validate_retry
start_retry-valid s now p = ground arith

pub prepare_target-valid : (s : RecoveryState) → Parts s → Holds (λ r. Parts r.0) (prepare_target s)
unfolding prepare_target validate_target
prepare_target-valid s p = ground arith

pub settle-valid : (s : RecoveryState) → Parts s → Holds (λ r. Parts r.0) (settle s)
unfolding settle ready_target validate_target validate_retry
settle-valid s p = ground arith

pub renew-valid : (s : RecoveryState) → Parts s → Holds (λ r. Parts r.0) (renew s)
unfolding renew
renew-valid s p = ground (arith, reset-valid s p)

pub open_window-valid :
    (s : RecoveryState) (start : ℕ) → Parts s → Holds (λ r. Parts r.0) (open_window start s)
unfolding open_window reset validate_retry
open_window-valid s start p = ground (arith, reset-valid s p)

pub start_again-valid :
    (s : RecoveryState) (always : Bool) → Parts s → Holds (λ r. Parts r.0) (start_again always s)
unfolding start_again
start_again-valid s always p = ground (arith, reset-valid s p)
