-- ===== src/Planner/Deadline.antt =====
-- `DeadlinePlanner` of src/dakv/planner/deadline_planner.py.
pub mod Decision
use awarekv.Prelude.{
  ℕ, ◌*◌, ◌/◌, max, String, Bool, true, false, not, ◌||◌, Option, none, some, List, [], Result, ok,
  ◌>>=◌, if◌then◌else◌, ltb, ◌==◌, nat_eqb,
}
use awarekv.Common.Types.{
  PrefixManifest, TransferPlan, full_fp16, critical_int8_only, critical_int8_then_fp16, t2_remote,
}
use awarekv.Common.Types
use awarekv.Planner.Floats.{Floats}
use awarekv.Planner.Estimator.{NetworkEstimate, BandwidthEstimator, get_estimate}

-- `x or 0`
abbrev pub or_zero : Option ℕ → ℕ
or_zero none = 0
or_zero (some n) = n

-- `_recompute_plan`
unfoldable pub recompute_plan : String → String → TransferPlan
recompute_plan plan_id reason = record {
  plan_id = plan_id;
  matched_tokens = 0;
  matched_blocks = [];
  mode = Types.PlanMode.recompute;
  critical_deadline_ms = 0;
  refine_budget_ms = 0;
  load_from_tier = t2_remote;
  allow_refine_drop = true;
  reason_code = reason;
  estimated_critical_bytes = 0;
  estimated_refine_bytes = 0;
}

module _ (f : Floats) where
  open f use {F, of_nat, add, mul, div, lt, ge, trunc}

  pub record DeadlinePlanner : Type 0 where
    pub estimator : BandwidthEstimator f
    pub ttft_slo_ms : ℕ
    pub alpha : F
    pub min_prefix_tokens : ℕ

  -- net_est.rtt_ms + (nbytes * 8 * 1000.0) / net_est.bandwidth_bps
  unfoldable pub transfer_time : NetworkEstimate f → ℕ → Result F
  transfer_time est nbytes = do
    t ← div (mul (of_nat (nbytes * 8)) (of_nat 1000)) est.bandwidth_bps
    ok (add est.rtt_ms t)

  abbrev pub ttft_budget : DeadlinePlanner → F
  ttft_budget p = mul (of_nat p.ttft_slo_ms) p.alpha

  abbrev full_fp16_plan : DeadlinePlanner → PrefixManifest → String → TransferPlan
  full_fp16_plan p m plan_id = record {
    plan_id = plan_id;
    matched_tokens = m.matched_tokens;
    matched_blocks = m.matched_blocks;
    mode = full_fp16;
    critical_deadline_ms = trunc (ttft_budget p);
    refine_budget_ms = 0;
    load_from_tier = t2_remote;
    allow_refine_drop = false;
    reason_code = "full_fp16_within_budget";
    estimated_critical_bytes = m.critical_nbytes;
    estimated_refine_bytes = 0;
  }

  abbrev int8_only_plan : DeadlinePlanner → PrefixManifest → String → TransferPlan
  int8_only_plan p m plan_id = record {
    plan_id = plan_id;
    matched_tokens = m.matched_tokens;
    matched_blocks = m.matched_blocks;
    mode = critical_int8_only;
    critical_deadline_ms = trunc (ttft_budget p);
    refine_budget_ms = 0;
    load_from_tier = t2_remote;
    allow_refine_drop = true;
    reason_code = "int8_only_no_refinement";
    estimated_critical_bytes = m.critical_nbytes / 2;
    estimated_refine_bytes = 0;
  }

  abbrev int8_then_fp16_plan : DeadlinePlanner → PrefixManifest → String → TransferPlan
  int8_then_fp16_plan p m plan_id = record {
    plan_id = plan_id;
    matched_tokens = m.matched_tokens;
    matched_blocks = m.matched_blocks;
    mode = critical_int8_then_fp16;
    critical_deadline_ms = trunc (ttft_budget p);
    refine_budget_ms = max 100 (trunc (mul (of_nat p.ttft_slo_ms) f.three_tenths));
    load_from_tier = t2_remote;
    allow_refine_drop = true;
    reason_code = "fallback_to_int8_for_ttft";
    estimated_critical_bytes = m.critical_nbytes / 2;
    estimated_refine_bytes = or_zero m.refinement_nbytes;
  }

  -- `plan`; `plan_id` is the fresh `uuid4`
  unfoldable pub make_plan : DeadlinePlanner → PrefixManifest → Bool → String → Result TransferPlan
  unfolding transfer_time get_estimate recompute_plan
  make_plan p m enable_refinement plan_id =
      if ltb m.matched_tokens p.min_prefix_tokens
      then ok (recompute_plan plan_id "prefix_too_short")
      else do
        fp16_time ← transfer_time (get_estimate f p.estimator) m.critical_nbytes
        if lt fp16_time (ttft_budget p) then ok (full_fp16_plan p m plan_id) else do
          int8_time ← transfer_time (get_estimate f p.estimator) (m.critical_nbytes / 2)
          if ge int8_time (ttft_budget p)
              then ok (recompute_plan plan_id "deadline_miss_even_with_int8")
              else if not enable_refinement || nat_eqb (or_zero m.refinement_nbytes) 0
              then ok (int8_only_plan p m plan_id)
              else ok (int8_then_fp16_plan p m plan_id)
