-- ===== src/Bench/MetricsParser.antt =====
-- `compute_statistics` of src/dakv/bench/metrics_parser.py, over the interface of floats. The files
-- that `export_results` writes are output.
pub mod Sorted
pub mod Chain
use awarekv.Prelude.{
  ℕ, zero, suc, ◌/◌, ◌<◌, Bool, true, false, Option, none, some, List, [], ◌∷◌, if◌then◌else◌, ltb,
  length, get_elem?, Result, ok, raise, index_error, ◌>>=◌,
}
use awarekv.Planner.Floats.{Floats}

module _ (f : Floats) where
  open f use {F, of_nat, add, mul, lt, trunc}

  pub record Stats : Type 0 where
    pub total_requests : ℕ
    pub mean_latency_ms : F
    pub median_latency_ms : F
    pub p95_latency_ms : F
    pub p99_latency_ms : F
    pub min_latency_ms : F
    pub max_latency_ms : F

  -- [r["latency_ms"] for r in results if "latency_ms" in r]
  unfoldable pub latencies_of : List (Option F) → List F
  latencies_of [] = []
  latencies_of (none ∷ rs) = latencies_of rs
  latencies_of (some x ∷ rs) = x ∷ latencies_of rs

  -- `sort`, which keeps the order of equal elements
  unfoldable pub place : F → List F → List F
  place x [] = x ∷ []
  place x (y ∷ ys) = let rest = place x ys in if lt y x then y ∷ rest else x ∷ y ∷ ys

  unfoldable pub sort : List F → List F
  unfolding place
  sort [] = []
  sort (x ∷ xs) = place x (sort xs)

  -- l[i]
  unfoldable pub element : ℕ → List F → Result F
  element i xs = elim (get_elem? xs i) [ none ↦ raise index_error | some x ↦ ok x ]

  -- `sum`, `min` and `max`, from a first value
  abbrev pub total : F → List F → F
  total x [] = x
  total x (y ∷ ys) = total (add x y) ys

  abbrev pub least : F → List F → F
  least x [] = x
  least x (y ∷ ys) = least (if lt y x then y else x) ys

  abbrev pub greatest : F → List F → F
  greatest x [] = x
  greatest x (y ∷ ys) = greatest (if lt x y then y else x) ys

  -- l[int(n * p)] if n > 1 else l[0]
  abbrev pub percentile : F → List F → Result F
  percentile p xs =
      if ltb 1 (length xs) then element (trunc (mul (of_nat (length xs)) p)) xs else element 0 xs

-- The literals 0.95 and 0.99 are parameters.
module _ (f : Floats) (p95 p99 : f.F) where
  open f use {F, of_nat, div}

  -- `stats`, for the sorted latencies
  unfoldable pub stats_of : F → List F → Result (Stats f)
  unfolding element
  stats_of x xs = do
    mean ← div (total f (of_nat 0) (x ∷ xs)) (of_nat (length (x ∷ xs)))
    median ← element f (length (x ∷ xs) / 2) (x ∷ xs)
    high ← percentile f p95 (x ∷ xs)
    higher ← percentile f p99 (x ∷ xs)
    ok (record {
      total_requests = length (x ∷ xs);
      mean_latency_ms = mean;
      median_latency_ms = median;
      p95_latency_ms = high;
      p99_latency_ms = higher;
      min_latency_ms = least f x xs;
      max_latency_ms = greatest f x xs;
    })

  abbrev pub stats_if_any : List F → Result (Option (Stats f))
  stats_if_any [] = ok none
  stats_if_any (x ∷ xs) = do stats ← stats_of x xs; ok (some stats)

  -- `compute_statistics`, where `none` is the empty dictionary
  unfoldable pub compute_statistics : List (Option F) → Result (Option (Stats f))
  unfolding latencies_of sort stats_of
  compute_statistics results = stats_if_any (sort f (latencies_of f results))
