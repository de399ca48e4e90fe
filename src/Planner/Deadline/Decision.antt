-- ===== src/Planner/Deadline/Decision.antt =====
-- The choice of src/dakv/planner/deadline_planner.py, and the deadline.
use awarekv.Prelude.{
  ℕ, [], ◌/◌, ◌≤◌, ◌<◌, ◌≡◌, ◌≢◌, ◌⊎◌, ◌↔◌, String, Bool, true, false, subst, Result, ok, raise,
  Result-cases, inl, inr, ◌*◌, arith,
}
use awarekv.Common.Types
use awarekv.Common.Types.{
  PrefixManifest, TransferPlan, full_fp16, critical_int8_only, critical_int8_then_fp16,
}
use awarekv.Planner.Floats.{Floats, FloatLaws}
use awarekv.Planner.Estimator.{NetworkEstimate, get_estimate}
use awarekv.Planner.Deadline.{DeadlinePlanner, transfer_time, ttft_budget, or_zero, make_plan}

module _ (f : Floats) where
  -- A time that was computed, and is below the budget.
  abbrev pub IsWithin : f.F → Result f.F → Type 0
  IsWithin budget (ok t) = f.lt t budget ≡ true
  IsWithin budget (raise e) = ⊥

  -- If the time can be computed it is not NaN.
  abbrev pub IsNumber : Result f.F → Type 0
  IsNumber (ok t) = f.is_nan t ≡ false
  IsNumber (raise e) = Unit

  half-IsWithin :
      (laws : FloatLaws f) (est : NetworkEstimate f) (n : ℕ) {b t t8 : f.F}
      → transfer_time f est n ≡ ok t
      → transfer_time f est (n / 2) ≡ ok t8
      → f.lt (f.of_nat 0) est.bandwidth_bps ≡ true
      → f.lt t b ≡ true
      → f.lt t8 b ≡ true
  unfolding transfer_time
  half-IsWithin laws est n {b} e e8 up h =
      elim (Result-cases (f.div (f.mul (f.of_nat (n * 8)) (f.of_nat 1000)) est.bandwidth_bps)) [
        | inr (x, p) ↦ absurd (ground arith)
        | inl (y, p) ↦
            elim (Result-cases
              (f.div (f.mul (f.of_nat (n / 2 * 8)) (f.of_nat 1000)) est.bandwidth_bps)) [
                | inr (x, q) ↦ absurd (ground arith)
                | inl (x, q) ↦ ground (
                  arith,
                  laws.estimate_mono est.rtt_ms est.bandwidth_bps b x y (n / 2) n up (omega arith) q
                      p,
                )
              ]
      ]

module _ (f : Floats) (laws : FloatLaws f) (p : DeadlinePlanner f) (m : PrefixManifest)
    (enable : Bool) (plan_id : String) where
  -- An accepted plan meets the deadline by the planner's own estimate: unless the plan is to
  -- recompute, the time for the bytes that it loads first can be estimated and is below the budget.
  -- The budget and the estimate for the halved object are not NaN, and the floats compare as IEEE's.
  pub make_plan-IsWithin :
      {r : TransferPlan}
      → make_plan f p m enable plan_id ≡ ok r
      → r.mode ≢ Types.PlanMode.recompute
      → IsNumber f (transfer_time f (get_estimate f p.estimator) (m.critical_nbytes / 2))
      → f.is_nan (ttft_budget f p) ≡ false
      → IsWithin f
          (ttft_budget f p)
          (transfer_time f (get_estimate f p.estimator) r.estimated_critical_bytes)
  make_plan-IsWithin e n number budget =
      elim (Result-cases (transfer_time f (get_estimate f p.estimator) (m.critical_nbytes / 2))) [
        | inl (t8, q) ↦
            let law = laws.ge-not_lt t8 (ttft_budget f p) (subst (IsNumber f) q number) budget in
            unfold make_plan in grind arith
        | inr (x, q) ↦ unfold make_plan in grind arith
      ]

  -- Over a bandwidth above zero the planner recomputes exactly when the prefix is too short or the
  -- time for the halved object does not come below the budget; it never recomputes for another
  -- reason. The budget and that time are not NaN, and the floats compare as IEEE's.
  pub make_plan-recompute_iff :
      {r : TransferPlan} {t8 : f.F}
      → make_plan f p m enable plan_id ≡ ok r
      → transfer_time f (get_estimate f p.estimator) (m.critical_nbytes / 2) ≡ ok t8
      → f.is_nan t8 ≡ false
      → f.is_nan (ttft_budget f p) ≡ false
      → f.lt (f.of_nat 0) (get_estimate f p.estimator).bandwidth_bps ≡ true
      → (r.mode ≡ Types.PlanMode.recompute)
        ↔ ((m.matched_tokens < p.min_prefix_tokens) ⊎ (f.ge t8 (ttft_budget f p) ≡ true))
  make_plan-recompute_iff {r} {t8} e e8 number budget up = (
    unfold make_plan in ground arith,
    λ h.
        let est = get_estimate f p.estimator in
        let law = laws.ge-not_lt t8 (ttft_budget f p) number budget in
        elim (Result-cases (transfer_time f est m.critical_nbytes)) [
          | inl (t, q) ↦
              let half : f.lt t (ttft_budget f p) ≡ true → f.lt t8 (ttft_budget f p) ≡ true =
                half-IsWithin f laws est m.critical_nbytes q e8 up in
              unfold make_plan in grind (arith, law, half)
          | inr (x, q) ↦ unfold make_plan in grind (arith, law)
        ],
  )

  -- A recompute plan carries nothing: no token, no block and no byte.
  pub make_plan-recompute_empty :
      {r : TransferPlan}
      → make_plan f p m enable plan_id ≡ ok r
      → r.mode ≡ Types.PlanMode.recompute
      → (r.matched_tokens ≡ 0) × (r.matched_blocks ≡ []) × (r.estimated_critical_bytes ≡ 0)
  unfolding make_plan
  make_plan-recompute_empty e h = ground arith

  -- A refinement is planned only where it is enabled and there is one, and has at least 100 ms.
  pub make_plan-refines :
      {r : TransferPlan}
      → make_plan f p m enable plan_id ≡ ok r
      → r.mode ≡ critical_int8_then_fp16
      → (enable ≡ true)
        × (0 < or_zero m.refinement_nbytes)
        × (100 ≤ r.refine_budget_ms)
        × (r.estimated_refine_bytes ≡ or_zero m.refinement_nbytes)
  unfolding make_plan
  make_plan-refines e h = ground arith
