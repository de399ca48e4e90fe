-- ===== src/Bench/MetricsParser/Chain.antt =====
-- The statistics of src/dakv/bench/metrics_parser.py: they exist, and stand in order.
use awarekv.Prelude.{
  ℕ, ◌*◌, ◌/◌, ◌^◌, ◌≤◌, ◌<◌, false, Option, some, List, [], ◌∷◌, if◌then◌else◌, ltb, length,
  get_elem?, ok, ◌≡◌, refl, ◌∙◌, subst, arith, lt→ltb, le→ltb, inl, inr, Bool-cases,
}
use native.Mathlib.Decide.{dec_lt}
use awarekv.Planner.Floats.{Floats}
use awarekv.Bench.MetricsParser.{
  Stats, latencies_of, sort, element, total, least, greatest, percentile, stats_of, stats_if_any,
  compute_statistics,
}
use awarekv.Bench.MetricsParser.Sorted.{
  StatLaws, IsSorted, length-sort, get_elem?-total, sort-IsSorted, get_elem?-IsSorted, least-le,
  greatest-ge,
}

module _ (f : Floats) where
  open f use {F, of_nat, lt}

  -- the place of a percentile
  abbrev rank : ℕ → ℕ → ℕ
  rank n q = if ltb 1 n then n * q / 100 else 0

  rank-order : (n : ℕ) → 0 < n → (n / 2 ≤ rank n 95) × (rank n 95 ≤ rank n 99) × (rank n 99 < n)
  rank-order n h = elim (dec_lt 1 n) [
    | yes m ↦ rw (lt→ltb 1 n m) (omega arith, omega arith, omega arith)
    | no m ↦ rw (le→ltb 1 n (omega arith)) (omega arith, omega arith, omega arith)
  ]

  element-found : (i : ℕ) (x : F) (xs : List F) → get_elem? xs i ≡ some x → element f i xs ≡ ok x
  unfolding element
  element-found i x xs e = rw (element, e) refl

  percentile-rank :
      (p : F) (q : ℕ) (a : F) (xs : List F)
      → f.trunc (f.mul (of_nat (length xs)) p) ≡ length xs * q / 100
      → get_elem? xs (rank (length xs) q) ≡ some a
      → percentile f p xs ≡ ok a
  percentile-rank p q a xs e g = elim (Bool-cases (ltb 1 (length xs))) [
    | inl b ↦
        rw (b, e)
          (element-found (length xs * q / 100) a xs
            (subst (λ t. get_elem? xs (if t then length xs * q / 100 else 0) ≡ some a) b g))
    | inr b ↦ rw b (
        element-found 0 a xs
          (subst (λ t. get_elem? xs (if t then length xs * q / 100 else 0) ≡ some a) b g))
  ]

  -- minimum, median, percentiles and maximum do not decrease
  abbrev pub InOrder : Stats f → Type 0
  InOrder s =
      (lt s.median_latency_ms s.min_latency_ms ≡ false)
      × (lt s.p95_latency_ms s.median_latency_ms ≡ false)
      × (lt s.p99_latency_ms s.p95_latency_ms ≡ false)
      × (lt s.max_latency_ms s.p99_latency_ms ≡ false)

  module _ (p95 p99 : F) (laws : StatLaws f p95 p99) where
    stats_of-InOrder :
        (x : F) (xs : List F)
        → IsSorted f (x ∷ xs)
        → length (x ∷ xs) < 2 ^ 40
        → (s : Stats f) × (stats_of f p95 p99 x xs ≡ ok s)
          × (s.total_requests ≡ length (x ∷ xs))
          × InOrder s
    unfolding stats_of
    stats_of-InOrder x xs sorted few =
        let n = length (x ∷ xs) in
        let (r1, r2, r3) = rank-order n (omega arith) in
        let (mean, e0) = laws.div_count (total f (of_nat 0) (x ∷ xs)) n (omega arith) in
        let (a, e1) = get_elem?-total f (n / 2) (x ∷ xs) (omega arith) in
        let (b, e2) = get_elem?-total f (rank n 95) (x ∷ xs) (omega (arith, r2, r3)) in
        let (c, e3) = get_elem?-total f (rank n 99) (x ∷ xs) r3 in
        let g2 = percentile-rank p95 95 b (x ∷ xs) (laws.at_p95 n few) e2 in
        let g3 = percentile-rank p99 99 c (x ∷ xs) (laws.at_p99 n few) e3 in
        (
          record {
            total_requests = n;
            mean_latency_ms = mean;
            median_latency_ms = a;
            p95_latency_ms = b;
            p99_latency_ms = c;
            min_latency_ms = least f x xs;
            max_latency_ms = greatest f x xs;
          },
          rw (stats_of, e0, element-found (n / 2) a (x ∷ xs) e1, g2, g3) refl,
          refl,
          (
            least-le f p95 p99 laws x a (n / 2) xs e1,
            get_elem?-IsSorted f p95 p99 laws (n / 2) (rank n 95) a b (x ∷ xs) sorted r1 e1 e2,
            get_elem?-IsSorted f p95 p99 laws (rank n 95) (rank n 99) b c (x ∷ xs) sorted r2 e2 e3,
            greatest-ge f p95 p99 laws x c (rank n 99) xs e3,
          ),
        )

    any-InOrder :
        (xs : List F)
        → IsSorted f xs
        → 0 < length xs
        → length xs < 2 ^ 40
        → (s : Stats f) × (stats_if_any f p95 p99 xs ≡ ok (some s))
          × (s.total_requests ≡ length xs)
          × InOrder s
    any-InOrder [] sorted some_there few = absurd (omega arith)
    any-InOrder (x ∷ xs) sorted some_there few =
        let (s, e, count, order) = stats_of-InOrder x xs sorted few in
        (s, rw (stats_if_any, e) refl, count, order)

    -- For results with at least one latency, and fewer than 2 ^ 40, the statistics are computed without
    -- an exception: they count the latencies, and minimum, median, 95th and 99th percentile and maximum
    -- do not decrease, where no latency is NaN, a division by a positive count does not raise, and
    -- truncating n * 0.95 and n * 0.99 gives the quotients of integers.
    pub compute_statistics-InOrder :
        (results : List (Option F))
        → 0 < length (latencies_of f results)
        → length (latencies_of f results) < 2 ^ 40
        → (s : Stats f) × (compute_statistics f p95 p99 results ≡ ok (some s))
          × (s.total_requests ≡ length (latencies_of f results))
          × InOrder s
    unfolding compute_statistics
    compute_statistics-InOrder results some_there few =
        let xs = latencies_of f results in
        let n = length-sort f xs in
        let (s, e, count, order) =
          any-InOrder (sort f xs) (sort-IsSorted f p95 p99 laws xs) (omega (arith, n))
            (omega (arith, n)) in
        (s, e, count ∙ n, order)
