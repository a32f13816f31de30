-- ===== src/Recovery/Starts.antt =====
-- How often the Agent really starts the current save again: `begin_current_retry` reserves the
-- launch of the process.
use dst_server.Base.{
  ℕ, ◌+◌, ◌-◌, ◌≤◌, List, [], ◌∷◌, String, Option, none, some, Fallible, arith, Holds,
  if◌then◌else◌, ok, err,
}
use dst_server.Recovery.State.{
  Catalogs, SavedRoom, RecoveryState, Failure, Decision, ClosedReason, FixedTarget, CurrentRetry,
  close,
}
use dst_server.Recovery.Decide.{decide, recover, weigh, answer, reserve_retry, roll_back}
use dst_server.Recovery.Operations.{
  update, on_failure, resume, resume_target, resume_rest, resume_retry, resume_pending, start_retry,
  begin_current_retry, prepare_target, mark_prepared, settle, ready_target, mark_ready,
}
use dst_server.Recovery.Trace.{Call, fails, resumes, begins, prepares, readies, outcome, step}

-- A retry that is reserved and has not been started.
abbrev pub unstarted : Option CurrentRetry → ℕ
unstarted none = 0
unstarted (some retry) = if retry.started then 0 else 1

-- The starts that a state still allows: the restarts left, and the one reserved.
abbrev pub startable : RecoveryState → ℕ
startable s = 2 - s.restarts_used + unstarted s.retry

abbrev succeeds {ℓ} : {A : Type ℓ} → Fallible A → ℕ
succeeds (ok a) = 1
succeeds (err e) = 0

-- Whether the call starts the game: a start that is not refused.
abbrev pub starts_by : RecoveryState → Call → ℕ
starts_by s (begins now) = succeeds (begin_current_retry now s)
starts_by s _ = 0

abbrev IsWithin : ℕ → RecoveryState → Type 0
IsWithin n r = startable r ≤ n

roll_back-IsWithin :
    (s : RecoveryState) (latest : SavedRoom) (catalogs : Catalogs) (failed : Option ℕ)
    → Holds (λ r. IsWithin (startable s) r.0) (roll_back s latest catalogs failed)
unfolding roll_back close
roll_back-IsWithin s latest catalogs none = ground arith
roll_back-IsWithin s latest catalogs (some failed) = ground arith

answer-IsWithin :
    (s : RecoveryState) (latest : SavedRoom) (catalogs : Catalogs) (now : ℕ) (failed : Option ℕ)
    → Holds (λ r. IsWithin (startable s) r.0) (answer s latest catalogs now failed)
unfolding answer close reserve_retry
answer-IsWithin s latest catalogs now failed =
    ground (arith, roll_back-IsWithin s latest catalogs failed)

decide-IsWithin :
    (s : RecoveryState) (failure : Failure) (required : List String) (catalogs : Catalogs) (now : ℕ)
    → Holds (λ r. IsWithin (startable s) r.0) (decide s failure required catalogs now)
unfolding decide recover weigh close
decide-IsWithin s failure required catalogs now = grind (arith, answer-IsWithin)

resume_rest-IsWithin :
    (s : RecoveryState) (retry : Option CurrentRetry) (required : List String) (catalogs : Catalogs)
    (now : ℕ)
    → Holds (λ r. IsWithin (startable s) r.0) (resume_rest s retry required catalogs now)
unfolding resume_rest resume_retry close
resume_rest-IsWithin s none required catalogs now = omega arith
resume_rest-IsWithin s (some retry) required catalogs now =
    ground (arith, decide-IsWithin s Failure.retryable required catalogs now)

resume-IsWithin :
    (s : RecoveryState) (required : List String) (catalogs : Catalogs) (now : ℕ)
    (closed : Option ClosedReason) (target : Option FixedTarget)
    → Holds (λ r. IsWithin (startable s) r.0) (resume s closed target required catalogs now)
unfolding resume resume_target close
resume-IsWithin s required catalogs now (some reason) target = omega arith
resume-IsWithin s required catalogs now none none =
    resume_rest-IsWithin s s.retry required catalogs now
resume-IsWithin s required catalogs now none (some t) =
    ground (arith, resume_rest-IsWithin s s.retry required catalogs now)

-- Neither an error nor the validations round a change add a start.
outcome-IsWithin :
    {T : Type 0} (change : RecoveryState → Fallible (RecoveryState × T)) (f : T → Option Decision)
    (s : RecoveryState)
    → Holds (λ r. IsWithin (startable s) r.0) (change s)
    → IsWithin (startable s) (outcome s f (update change s)).0
unfolding update
outcome-IsWithin change f s h = ground arith

begins-IsWithin :
    (s : RecoveryState) (now : ℕ)
    → startable (step s (begins now)).0 + starts_by s (begins now) ≤ startable s
unfolding step begin_current_retry update start_retry
begins-IsWithin s now = ground arith

step-IsWithin :
    (s : RecoveryState) (c : Call) → startable (step s c).0 + starts_by s c ≤ startable s
unfolding step on_failure resume_pending mark_prepared mark_ready
step-IsWithin s (fails failure required catalogs now) = omega (
  arith,
  outcome-IsWithin (λ t. decide t failure required catalogs now) some s
      (decide-IsWithin s failure required catalogs now),
)
step-IsWithin s (resumes required catalogs now) = omega (
  arith,
  outcome-IsWithin (λ t. resume t t.closed t.target required catalogs now) (λ d. d) s
      (resume-IsWithin s required catalogs now s.closed s.target),
)
step-IsWithin s (begins now) = begins-IsWithin s now
step-IsWithin s prepares =
    omega
      (arith, outcome-IsWithin prepare_target (λ _. none) s (unfold prepare_target in ground arith))
step-IsWithin s readies =
    omega
      (arith, outcome-IsWithin settle (λ _. none) s (unfold settle ready_target in ground arith))

-- The starts of a history.
unfoldable pub started : RecoveryState → List Call → ℕ
started s [] = 0
started s (c ∷ cs) = starts_by s c + started (step s c).0 cs

pub started-le : (s : RecoveryState) (cs : List Call) → started s cs ≤ startable s
unfolding started
started-le s [] = omega arith
started-le s (c ∷ cs) = omega (arith, started-le (step s c).0 cs, step-IsWithin s c)
