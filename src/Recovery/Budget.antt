-- ===== src/Recovery/Budget.antt =====
-- How often the Agent may launch a game again before something renews the budget.
use dst_server.Base.{
  ℕ, ◌+◌, ◌-◌, ◌≤◌, ◌≡◌, refl, List, [], ◌∷◌, String, Option, none, some, Fallible, arith, Holds,
  if◌then◌else◌, Bool-cases, inl, inr, true,
}
use dst_server.Recovery.State.{
  Catalogs, SavedRoom, RecoveryState, Failure, Decision, retry_current, restore, stay_closed,
  in_flight, ClosedReason, FixedTarget, CurrentRetry, close,
}
use dst_server.Recovery.Decide.{
  target_in_flight, decide, recover, weigh, answer, reserve_retry, roll_back,
}
use dst_server.Recovery.Operations.{
  update, on_failure, resume, resume_target, resume_rest, resume_retry, resume_pending, start_retry,
  begin_current_retry, prepare_target, mark_prepared, settle, mark_ready,
}
use dst_server.Recovery.Starts.{unstarted, startable, started, started-le}
use dst_server.Recovery.Trace.{Call, fails, resumes, begins, prepares, readies, outcome, step}

-- The launches that a state still allows: the restarts left and the one rollback.
abbrev pub budget_of : ℕ → Option ClosedReason → Option FixedTarget → ℕ
budget_of used (some reason) target = 0
budget_of used none none = 2 - used + 1
budget_of used none (some target) = 2 - used

abbrev pub budget : RecoveryState → ℕ
budget s = budget_of s.restarts_used s.closed s.target

-- Every decision to launch the game, whatever it says of its number.
abbrev pub launches : Option Decision → ℕ
launches none = 0
launches (some (stay_closed reason)) = 0
launches (some (retry_current attempt not_before shards)) = 1
launches (some (restore target resumed)) = 1

-- The launches that are reserved already: the rollback that is under way, or else a retry that has
-- not been started.
abbrev pub repeats : RecoveryState → ℕ
repeats s = if target_in_flight s.target then 1 else unstarted s.retry

-- The launches that a call decides on. A resumption repeats one that is reserved already.
abbrev pub launches_by : RecoveryState → Call → Option Decision → ℕ
launches_by s (resumes required catalogs now) d = launches d - repeats s
launches_by s _ d = launches d

-- `n` launches are paid for.
abbrev Spends : RecoveryState → RecoveryState → ℕ → Type 0
Spends s r n = budget r + n ≤ budget s

abbrev Pays : RecoveryState → RecoveryState × Decision → Type 0
Pays s r = Spends s r.0 (launches (some r.1))

abbrev Resumes : RecoveryState → RecoveryState × Option Decision → Type 0
Resumes s r = Spends s r.0 (launches r.1 - repeats s)

roll_back-Pays :
    (s : RecoveryState) (latest : SavedRoom) (catalogs : Catalogs) (failed : Option ℕ)
    → s.closed ≡ none
    → Holds (Pays s) (roll_back s latest catalogs failed)
unfolding roll_back close
roll_back-Pays s latest catalogs none c = ground arith
roll_back-Pays s latest catalogs (some failed) c = ground arith

answer-Pays :
    (s : RecoveryState) (latest : SavedRoom) (catalogs : Catalogs) (now : ℕ) (failed : Option ℕ)
    → s.closed ≡ none
    → Holds (Pays s) (answer s latest catalogs now failed)
unfolding answer close reserve_retry
answer-Pays s latest catalogs now failed c =
    ground (arith, roll_back-Pays s latest catalogs failed c)

recover-Pays :
    (s : RecoveryState) (failure : Failure) (required : List String) (catalogs : Catalogs) (now : ℕ)
    → s.closed ≡ none
    → Holds (Pays s) (recover s failure required catalogs now)
unfolding recover weigh close
recover-Pays s failure required catalogs now c = grind (arith, answer-Pays)

decide-Pays :
    (s : RecoveryState) (failure : Failure) (required : List String) (catalogs : Catalogs) (now : ℕ)
    → Holds (Pays s) (decide s failure required catalogs now)
unfolding decide close
decide-Pays s failure required catalogs now =
    grind (arith, recover-Pays s failure required catalogs now)

resume_target-Spends :
    (s : RecoveryState) (t : FixedTarget) (required : List String) (catalogs : Catalogs)
    → s.target ≡ some t
    → s.closed ≡ none
    → in_flight t.phase ≡ true
    → Holds (Resumes s) (resume_target s t required catalogs)
unfolding resume_target close
resume_target-Spends s t required catalogs e c p = ground (arith, e, c, p)

resume_rest-Spends :
    (s : RecoveryState) (retry : Option CurrentRetry) (required : List String) (catalogs : Catalogs)
    (now : ℕ)
    → s.retry ≡ retry
    → Holds (Resumes s) (resume_rest s retry required catalogs now)
unfolding resume_rest resume_retry close
resume_rest-Spends s none required catalogs now e = omega arith
resume_rest-Spends s (some retry) required catalogs now e =
    ground (arith, e, decide-Pays s Failure.retryable required catalogs now)

resume-Spends :
    (s : RecoveryState) (required : List String) (catalogs : Catalogs) (now : ℕ)
    (closed : Option ClosedReason) (target : Option FixedTarget)
    → s.closed ≡ closed
    → s.target ≡ target
    → Holds (Resumes s) (resume s closed target required catalogs now)
unfolding resume
resume-Spends s required catalogs now (some reason) target c e = ground arith
resume-Spends s required catalogs now none none c e =
    resume_rest-Spends s s.retry required catalogs now refl
resume-Spends s required catalogs now none (some t) c e = elim (Bool-cases (in_flight t.phase)) [
  | inl p ↦ rw p (resume_target-Spends s t required catalogs e c p)
  | inr p ↦ rw p (resume_rest-Spends s s.retry required catalogs now refl)
]

-- Neither an error nor the validations round a change spend anything.
outcome-Spends :
    {T : Type 0} (change : RecoveryState → Fallible (RecoveryState × T)) (f : T → Option Decision)
    (s : RecoveryState)
    → (n : Option Decision → ℕ) → n none ≡ 0
    → Holds (λ r. Spends s r.0 (n (f r.1))) (change s)
    → Spends s (outcome s f (update change s)).0 (n (outcome s f (update change s)).1)
unfolding update
outcome-Spends change f s n z h = ground (arith, z)

step-Spends : (s : RecoveryState) (c : Call) → Spends s (step s c).0 (launches_by s c (step s c).1)
unfolding step on_failure resume_pending begin_current_retry mark_prepared mark_ready
step-Spends s (fails failure required catalogs now) =
    outcome-Spends (λ t. decide t failure required catalogs now) some s launches refl
      (decide-Pays s failure required catalogs now)
step-Spends s (resumes required catalogs now) =
    outcome-Spends (λ t. resume t t.closed t.target required catalogs now) (λ d. d) s
      (λ d. launches d - repeats s) (omega arith)
      (resume-Spends s required catalogs now s.closed s.target refl refl)
step-Spends s (begins now) =
    outcome-Spends (start_retry now) (λ _. none) s launches refl
      (unfold start_retry in ground arith)
step-Spends s prepares =
    outcome-Spends prepare_target (λ _. none) s launches refl
      (unfold prepare_target in ground arith)
step-Spends s readies =
    outcome-Spends settle (λ _. none) s launches refl (unfold settle in ground arith)

-- The launches of a history, and the state behind it.
unfoldable pub launched : RecoveryState → List Call → ℕ
launched s [] = 0
launched s (c ∷ cs) = launches_by s c (step s c).1 + launched (step s c).0 cs

unfoldable pub final : RecoveryState → List Call → RecoveryState
final s [] = s
final s (c ∷ cs) = final (step s c).0 cs

launched-le : (s : RecoveryState) (cs : List Call) → launched s cs + budget (final s cs) ≤ budget s
unfolding launched final
launched-le s [] = omega arith
launched-le s (c ∷ cs) = omega (arith, launched-le (step s c).0 cs, step-Spends s c)

-- However failures, resumptions, starts and readiness follow one another, the decisions to launch
-- the game and the budget that is left are together at most the budget at the start; that is at
-- most three, two restarts of the current save and one rollback. Every decision to launch counts,
-- whatever it says of itself, but one of a resumption that repeats what is reserved already: the
-- rollback that is under way, or else a retry that has not been started. And the game is started
-- again in its current save, by the starts that are not refused, at most as often as there are
-- restarts left at the start, and once more for a retry that is reserved then.
pub launched_bounded :
    (s : RecoveryState) (cs : List Call)
    → ((launched s cs + budget (final s cs) ≤ budget s) × (budget s ≤ 3))
      × (started s cs ≤ startable s)
launched_bounded s cs =
    ((launched-le s cs, three s.restarts_used s.closed s.target), started-le s cs)
  where
    three :
        (used : ℕ) (closed : Option ClosedReason) (target : Option FixedTarget)
        → budget_of used closed target ≤ 3
    three used (some reason) target = omega arith
    three used none none = omega arith
    three used none (some t) = omega arith
