-- ===== src/Policy/Plan/Parts.antt =====
-- A tick of crates/dst-server/src/policy.rs that succeeds, taken apart into its stages.
use dst_server.Base.{ℕ, ◌≡◌, none, some, ok, arith, Result-cases, inl, inr, if◌then◌else◌}
use dst_server.Policy.Time.{Chrono}
use dst_server.Policy.Inputs.{Inputs, validate_inputs}
use dst_server.Policy.Schedule.{Policy, schedule_at}
use dst_server.Policy.Mods.{is_failed}
use dst_server.Policy.State.{PolicyState, validate_state}
use dst_server.Policy.Plan.{Plan, observe, choose, plan}

pub record Parts (c : Chrono) (p : Policy) (s : PolicyState) (now : ℕ) (i : Inputs)
    (s' : PolicyState) (r : Plan) : Type 0 where
  pub observed : PolicyState
  pub state_valid : validate_state s ≡ ok tt
  pub inputs_valid : validate_inputs i ≡ ok tt
  pub scheduled : schedule_at c p now ≡ ok r.schedule
  pub observing : observe c p s now i r.schedule ≡ ok (observed, r.new_opening)
  pub chosen : choose c p observed now i r.schedule ≡ ok (s', r.action)
  pub fault_is : r.fault ≡ (
      if is_failed observed.mods.phase then some "mod update failed after three attempts" else none)

module _ (c : Chrono) (p : Policy) (s : PolicyState) (now : ℕ) (i : Inputs) {s' : PolicyState}
    {r : Plan} (h : plan c p s now i ≡ ok (s', r)) where
  pub plan-Parts : Parts c p s now i s' r
  unfolding plan
  plan-Parts = elim (Result-cases (schedule_at c p now)) [
    | inr (e, a) ↦ ground (arith, a, h)
    | inl (schedule, a) ↦ elim (Result-cases (observe c p s now i schedule)) [
      | inr (e, b) ↦ ground (arith, a, b, h)
      | inl ((observed, opening), b) ↦ elim (Result-cases (choose c p observed now i schedule)) [
        | inr (e, d) ↦ ground (arith, a, b, d, h)
        | inl ((final, action), d) ↦ record {
          observed = observed;
          state_valid = ground (arith, a, b, d, h);
          inputs_valid = ground (arith, a, b, d, h);
          scheduled = ground (arith, a, b, d, h);
          observing = ground (arith, a, b, d, h);
          chosen = ground (arith, a, b, d, h);
          fault_is = ground (arith, a, b, d, h);
        }
      ]
    ]
  ]
