-- ===== src/Tests/Planning.antt =====
-- The planner's theorems on whole numbers in place of floats.
use native.Mathlib.Nat.{le-div_iff_mul-le, div-mul-le_self}
use awarekv.Prelude.{
  false, ℕ, ◌+◌, ◌-◌, ◌*◌, ◌/◌, ◌≤◌, ◌<◌, ◌≡◌, [], ◌⊎◌, ◌↔◌, refl, arith, true, not, ltb, nat_eqb,
  if◌then◌else◌, lt→ltb, List, ◌∷◌, Option, none, some, Result, ok, raise, zero_division_error,
}
use awarekv.Common.Types
use awarekv.Common.Types.{TransferPlan, PrefixManifest}
use awarekv.Bench.MetricsParser.{Stats, latencies_of, compute_statistics}
use awarekv.Bench.MetricsParser.Sorted.{StatLaws}
use awarekv.Bench.MetricsParser.Chain.{InOrder, compute_statistics-InOrder}
use awarekv.Planner.Floats.{Floats, FloatLaws}
use awarekv.Planner.Estimator.{BandwidthEstimator, get_estimate}
use awarekv.Planner.Deadline.{DeadlinePlanner, make_plan, transfer_time, ttft_budget}
use awarekv.Planner.Deadline.Decision.{
  IsNumber, IsWithin, make_plan-IsWithin, make_plan-recompute_iff,
}
use awarekv.Tests.TestData.{test_manifest}

abbrev divide : ℕ → ℕ → Result ℕ
divide a b = if nat_eqb b 0 then raise zero_division_error else ok (a / b)

abbrev pub whole : Floats
whole = record {
  F = ℕ;
  of_nat = λ n. n;
  add = λ a b. a + b;
  sub = λ a b. a - b;
  mul = λ a b. a * b;
  div = divide;
  lt = ltb;
  ge = λ a b. not (ltb a b);
  is_nan = λ a. false;
  trunc = λ a. a;
  three_tenths = 0;
  default_bps = 1000000000;
  default_rtt = 10;
}

div_mono : (a b k : ℕ) → a ≤ b → 0 < k → a / k ≤ b / k
div_mono a b k h p = (le-div_iff_mul-le p).1 (omega (arith, div-mul-le_self a k))

whole-estimate_mono :
    (rtt bps b x y m n : ℕ)
    → ltb 0 bps ≡ true
    → m ≤ n
    → divide (m * 8 * 1000) bps ≡ ok x
    → divide (n * 8 * 1000) bps ≡ ok y
    → ltb (rtt + y) b ≡ true
    → ltb (rtt + x) b ≡ true
whole-estimate_mono rtt bps b x y m n up h ex ey l =
    ground (arith, λ (p : 0 < bps). div_mono (m * 8 * 1000) (n * 8 * 1000) bps (omega arith) p)

pub whole-FloatLaws : FloatLaws whole
whole-FloatLaws = record { ge-not_lt = λ a b x y. refl; estimate_mono = whole-estimate_mono }

abbrev estimator_of : ℕ → BandwidthEstimator whole
estimator_of bps = record { alpha = 1; ewma_bps = bps; ewma_rtt_ms = 10; last_update_ms = 0 }

-- a budget of 60 ms
abbrev pub planner_of : ℕ → DeadlinePlanner whole
planner_of bps = record {
  estimator = estimator_of bps;
  ttft_slo_ms = 60;
  alpha = 1;
  min_prefix_tokens = 16;
}

-- at 500 kbit/s the halved object takes 42 ms, and the whole one 74 ms
abbrev pub int8_plan : TransferPlan
int8_plan = record {
  plan_id = "p";
  matched_tokens = 64;
  matched_blocks = test_manifest.matched_blocks;
  mode = Types.PlanMode.critical_int8_then_fp16;
  critical_deadline_ms = 60;
  refine_budget_ms = 100;
  load_from_tier = Types.Tier.t2_remote;
  allow_refine_drop = true;
  reason_code = "fallback_to_int8_for_ttft";
  estimated_critical_bytes = 2000;
  estimated_refine_bytes = 8000;
}

-- at 100 kbit/s even the halved object is late
abbrev pub late_plan : TransferPlan
late_plan = record {
  plan_id = "p";
  matched_tokens = 0;
  matched_blocks = [];
  mode = Types.PlanMode.recompute;
  critical_deadline_ms = 0;
  refine_budget_ms = 0;
  load_from_tier = Types.Tier.t2_remote;
  allow_refine_drop = true;
  reason_code = "deadline_miss_even_with_int8";
  estimated_critical_bytes = 0;
  estimated_refine_bytes = 0;
}

pub make_plan_int8 : make_plan whole (planner_of 500000) test_manifest true "p" ≡ ok int8_plan
unfolding make_plan
make_plan_int8 = refl

pub make_plan_late : make_plan whole (planner_of 100000) test_manifest true "p" ≡ ok late_plan
unfolding make_plan
make_plan_late = refl

late_time : transfer_time whole (get_estimate whole (estimator_of 100000)) 2000 ≡ ok 170
unfolding transfer_time get_estimate
late_time = refl

int8-IsNumber : IsNumber whole (
    transfer_time whole
      (get_estimate whole (estimator_of 500000))
      (test_manifest.critical_nbytes / 2))
unfolding transfer_time get_estimate
int8-IsNumber = refl

bandwidth_up : ltb 0 (get_estimate whole (estimator_of 100000)).bandwidth_bps ≡ true
unfolding get_estimate
bandwidth_up = refl

make_plan-IsWithin_example :
    IsWithin whole
      (ttft_budget whole (planner_of 500000))
      (transfer_time whole (get_estimate whole (estimator_of 500000)) 2000)
make_plan-IsWithin_example =
    make_plan-IsWithin whole whole-FloatLaws (planner_of 500000) test_manifest true "p"
      make_plan_int8 (λ e. ground arith) int8-IsNumber refl

make_plan-recompute_iff_example :
    (late_plan.mode ≡ Types.PlanMode.recompute) ↔ ((64 < 16) ⊎ (not (ltb 170 60) ≡ true))
make_plan-recompute_iff_example =
    make_plan-recompute_iff whole whole-FloatLaws (planner_of 100000) test_manifest true "p"
      make_plan_late late_time refl refl bandwidth_up

-- Hundredths in place of floats, with 95 and 99 for 0.95 and 0.99.
abbrev divide_count : ℕ → ℕ → Result ℕ
divide_count a b = if nat_eqb b 0 then raise zero_division_error else ok (a * 100 / b)

abbrev hundredths : Floats
hundredths = record {
  F = ℕ;
  of_nat = λ n. n * 100;
  add = λ a b. a + b;
  sub = λ a b. a - b;
  mul = λ a b. a * b / 100;
  div = divide_count;
  lt = ltb;
  ge = λ a b. not (ltb a b);
  is_nan = λ a. false;
  trunc = λ a. a / 100;
  three_tenths = 30;
  default_bps = 100000000000;
  default_rtt = 1000;
}

hundredths-StatLaws : StatLaws hundredths 95 99
hundredths-StatLaws = record {
  asym = λ a b. ground arith;
  trans = λ a b c. ground arith;
  div_count = λ x n h. (x * 100 / (n * 100), ground (arith, lt→ltb 0 n h));
  at_p95 = λ n h. omega arith;
  at_p99 = λ n h. omega arith;
}

-- three requests, one of which has no latency
abbrev measured : List (Option ℕ)
measured = some 900 ∷ none ∷ some 500 ∷ []

compute_statistics-InOrder_example :
    (s : Stats hundredths) × (compute_statistics hundredths 95 99 measured ≡ ok (some s))
    × (s.total_requests ≡ 2)
    × InOrder hundredths s
unfolding latencies_of
compute_statistics-InOrder_example =
    compute_statistics-InOrder hundredths 95 99 hundredths-StatLaws measured (omega arith)
      (omega arith)
