-- ===== src/Recovery/Trace.antt =====
-- The calls of the Agent on the recovery state, one after another. A call that fails leaves the
-- stored state as it was.
use dst_server.Base.{
  ℕ, ◌≡◌, refl, ◌⊎◌, inl, inr, List, [], ◌∷◌, String, Option, none, some, Bool, ok, err, Fallible,
  arith, Holds, ltb, if◌then◌else◌, ap, ◌∙◌,
}
use dst_server.Recovery.State.{Catalogs, RecoveryState, Failure, Decision, validate, stable_reset}
use dst_server.Recovery.Decide.{decide}
use dst_server.Recovery.Operations.{
  update, on_failure, resume, resume_pending, start_retry, begin_current_retry, prepare_target,
  mark_prepared, settle, mark_ready, renew, reset_after_stable, open_window, reset_for_open_window,
  start_again, explicit_start,
}
use dst_server.Recovery.Valid.{Parts, validate-Parts, Parts-validate}
use dst_server.Recovery.Preserved.{
  decide-valid, resume-valid, start_retry-valid, prepare_target-valid, settle-valid, renew-valid,
  open_window-valid, start_again-valid,
}

-- The calls that spend the budget, and those that give it back.
pub data Call : Type 0 where
  fails : Failure → List String → Catalogs → ℕ → Call
  resumes : List String → Catalogs → ℕ → Call
  begins : ℕ → Call
  prepares readies : Call

pub data Renewal : Type 0 where
  stable : ℕ → Renewal
  opens : ℕ → Renewal
  starts : Bool → Renewal

-- The stored state after a call, with the decision that the call returned.
abbrev pub outcome :
    {T : Type 0}
    → RecoveryState
    → (T → Option Decision)
    → Fallible (RecoveryState × T)
    → RecoveryState × Option Decision
outcome s f (ok (t, x)) = (t, f x)
outcome s f (err e) = (s, none)

unfoldable pub step : RecoveryState → Call → RecoveryState × Option Decision
step s (fails failure required catalogs now) =
    outcome s some (on_failure failure required catalogs now s)
step s (resumes required catalogs now) = outcome s (λ d. d) (resume_pending required catalogs now s)
step s (begins now) = outcome s (λ _. none) (begin_current_retry now s)
step s prepares = outcome s (λ _. none) (mark_prepared s)
step s readies = outcome s (λ _. none) (mark_ready s)

unfoldable pub renewed : RecoveryState → Renewal → RecoveryState
renewed s (stable seconds) = (outcome s (λ _. none) (reset_after_stable seconds s)).0
renewed s (opens start) = (outcome s (λ _. none) (reset_for_open_window start s)).0
renewed s (starts always) = (outcome s (λ _. none) (explicit_start always s)).0

unfoldable pub run : RecoveryState → List (Call ⊎ Renewal) → RecoveryState
run s [] = s
run s (inl c ∷ cs) = run (step s c).0 cs
run s (inr r ∷ cs) = run (renewed s r) cs

module _ {T : Type 0} where
  update-valid :
      (change : RecoveryState → Fallible (RecoveryState × T)) (s : RecoveryState)
      → (Parts s → Holds (λ r. Parts r.0) (change s))
      → Holds (λ r. validate r.0 ≡ ok tt) (update change s)
  unfolding update
  update-valid change s h = ground arith

  -- Validating before and after changes nothing on a valid state.
  pub update-eq :
      (change : RecoveryState → Fallible (RecoveryState × T)) (s : RecoveryState)
      → Parts s
      → Holds (λ r. Parts r.0) (change s)
      → update change s ≡ change s
  unfolding update
  update-eq change s p h = grind (arith, Parts-validate)

  outcome-valid :
      (change : RecoveryState → Fallible (RecoveryState × T)) (f : T → Option Decision)
      (s : RecoveryState)
      → (Parts s → Holds (λ r. Parts r.0) (change s))
      → validate s ≡ ok tt
      → validate (outcome s f (update change s)).0 ≡ ok tt
  outcome-valid change f s h v = ground (arith, update-valid change s h)

step-valid : (s : RecoveryState) (c : Call) → validate s ≡ ok tt → validate (step s c).0 ≡ ok tt
unfolding step on_failure resume_pending begin_current_retry mark_prepared mark_ready
step-valid s (fails failure required catalogs now) =
    outcome-valid (λ t. decide t failure required catalogs now) some s
      (decide-valid s failure required catalogs now)
step-valid s (resumes required catalogs now) =
    outcome-valid (λ t. resume t t.closed t.target required catalogs now) (λ d. d) s
      (λ p. resume-valid s required catalogs now s.closed s.target p refl)
step-valid s (begins now) = outcome-valid (start_retry now) (λ _. none) s (start_retry-valid s now)
step-valid s prepares = outcome-valid prepare_target (λ _. none) s (prepare_target-valid s)
step-valid s readies = outcome-valid settle (λ _. none) s (settle-valid s)

renewed-valid :
    (s : RecoveryState) (r : Renewal) → validate s ≡ ok tt → validate (renewed s r) ≡ ok tt
unfolding renewed reset_after_stable reset_for_open_window explicit_start
renewed-valid s (stable seconds) v =
    ground (arith, v, outcome-valid renew (λ _. none) s (renew-valid s) v)
renewed-valid s (opens start) v =
    outcome-valid (open_window start) (λ _. none) s (open_window-valid s start) v
renewed-valid s (starts always) v =
    outcome-valid (start_again always) (λ _. none) s (start_again-valid s always) v

run-valid :
    (s : RecoveryState) (cs : List (Call ⊎ Renewal))
    → validate s ≡ ok tt
    → validate (run s cs) ≡ ok tt
unfolding run
run-valid s [] v = v
run-valid s (inl c ∷ cs) v = run-valid (step s c).0 cs (step-valid s c v)
run-valid s (inr r ∷ cs) v = run-valid (renewed s r) cs (renewed-valid s r v)

-- The changes alone, with no validation before or after them.
abbrev pub bare_step : RecoveryState → Call → RecoveryState × Option Decision
bare_step s (fails failure required catalogs now) =
    outcome s some (decide s failure required catalogs now)
bare_step s (resumes required catalogs now) =
    outcome s (λ d. d) (resume s s.closed s.target required catalogs now)
bare_step s (begins now) = outcome s (λ _. none) (start_retry now s)
bare_step s prepares = outcome s (λ _. none) (prepare_target s)
bare_step s readies = outcome s (λ _. none) (settle s)

abbrev pub bare_renewed : RecoveryState → Renewal → RecoveryState
bare_renewed s (stable seconds) =
    if ltb seconds stable_reset then s else (outcome s (λ _. none) (renew s)).0
bare_renewed s (opens start) = (outcome s (λ _. none) (open_window start s)).0
bare_renewed s (starts always) = (outcome s (λ _. none) (start_again always s)).0

abbrev pub bare_run : RecoveryState → List (Call ⊎ Renewal) → RecoveryState
bare_run s [] = s
bare_run s (inl c ∷ cs) = bare_run (bare_step s c).0 cs
bare_run s (inr r ∷ cs) = bare_run (bare_renewed s r) cs

step-bare : (s : RecoveryState) (c : Call) → Parts s → step s c ≡ bare_step s c
unfolding step on_failure resume_pending begin_current_retry mark_prepared mark_ready
step-bare s (fails failure required catalogs now) p = ap (outcome s some) (
    update-eq (λ t. decide t failure required catalogs now) s p
      (decide-valid s failure required catalogs now p))
step-bare s (resumes required catalogs now) p = ap (outcome s (λ d. d)) (
    update-eq (λ t. resume t t.closed t.target required catalogs now) s p
      (resume-valid s required catalogs now s.closed s.target p refl))
step-bare s (begins now) p =
    ap (outcome s (λ _. none)) (update-eq (start_retry now) s p (start_retry-valid s now p))
step-bare s prepares p =
    ap (outcome s (λ _. none)) (update-eq prepare_target s p (prepare_target-valid s p))
step-bare s readies p = ap (outcome s (λ _. none)) (update-eq settle s p (settle-valid s p))

renewed-bare : (s : RecoveryState) (r : Renewal) → Parts s → renewed s r ≡ bare_renewed s r
unfolding renewed reset_after_stable reset_for_open_window explicit_start
renewed-bare s (stable seconds) p = grind (arith, update-eq renew s p (renew-valid s p))
renewed-bare s (opens start) p =
    ap (λ r. (outcome s (λ _. none) r).0)
      (update-eq (open_window start) s p (open_window-valid s start p))
renewed-bare s (starts always) p =
    ap (λ r. (outcome s (λ _. none) r).0)
      (update-eq (start_again always) s p (start_again-valid s always p))

run-bare :
    (s : RecoveryState) (cs : List (Call ⊎ Renewal)) → validate s ≡ ok tt → run s cs ≡ bare_run s cs
unfolding run
run-bare s [] v = refl
run-bare s (inl c ∷ cs) v =
    run-bare (step s c).0 cs (step-valid s c v)
    ∙ ap (λ r. bare_run r.0 cs) (step-bare s c (validate-Parts s v))
run-bare s (inr r ∷ cs) v =
    run-bare (renewed s r) cs (renewed-valid s r v)
    ∙ ap (λ t. bare_run t cs) (renewed-bare s r (validate-Parts s v))

-- Whatever the Agent calls, in any order, from a state that `validate` accepts: the changes by
-- themselves, with none of the validations round them, keep the state one that it accepts; so the
-- validations of `update` never refuse, and the stored state is the one that the changes make.
pub run-eq-bare_run :
    (s : RecoveryState) (cs : List (Call ⊎ Renewal))
    → validate s ≡ ok tt
    → (validate (bare_run s cs) ≡ ok tt) × (run s cs ≡ bare_run s cs)
run-eq-bare_run s cs v = let e = run-bare s cs v in let w = run-valid s cs v in (cc, e)

-- On a state that `validate` accepts, the two validations round a failure's decision and round a
-- resumption never refuse: the call answers as `decide` and `resume` do.
pub update-eq-change :
    (s : RecoveryState) (failure : Failure) (required : List String) (catalogs : Catalogs) (now : ℕ)
    → validate s ≡ ok tt
    → (on_failure failure required catalogs now s ≡ decide s failure required catalogs now)
      × (resume_pending required catalogs now s ≡ resume s s.closed s.target required catalogs now)
unfolding on_failure resume_pending
update-eq-change s failure required catalogs now v =
    let p = validate-Parts s v in
    (
      update-eq (λ t. decide t failure required catalogs now) s p
          (decide-valid s failure required catalogs now p),
      update-eq (λ t. resume t t.closed t.target required catalogs now) s p
          (resume-valid s required catalogs now s.closed s.target p refl),
    )
