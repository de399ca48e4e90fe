-- ===== src/Bench/Runners/Measured.antt =====
-- What the runners of src/dakv/bench measure, and the statistics of src/dakv/bench/metrics_parser.py on it.
use Prim.Native.String
use awarekv.Prelude.{
  ℕ, zero, suc, ◌*◌, ◌≤◌, ◌<◌, ◌^◌, String, Option, none, some, List, [], ◌∷◌, map, length, ◌≡◌,
  refl, ap, ◌∙◌, arith, length-append, Error, ok,
}
use awarekv.Planner.Floats.{Floats}
use awarekv.Bench.Client.{Reply, generate, latency_of}
use awarekv.Bench.MetricsParser.{Stats, latencies_of, compute_statistics}
use awarekv.Bench.MetricsParser.Sorted.{StatLaws}
use awarekv.Bench.MetricsParser.Chain.{InOrder, compute_statistics-InOrder}
use awarekv.Bench.Runners.{
  shared_prefix_workload, Line, line_if, run_workload, run_iterations, run_long_bench,
}

-- the dictionaries that the statistics are computed from: each has a latency
abbrev pub results_of : {F : Type 0} → List (Line F) → List (Option F)
results_of = map (λ l. some l.latency_ms)

length-line_if :
    {F : Type 0} (iteration i : ℕ) (prompt : String) (latency : Option F)
    → length (line_if iteration i prompt latency) ≤ 1
length-line_if iteration i prompt none = omega arith
length-line_if iteration i prompt (some x) = omega arith

module _ {F J : Type 0} (text : Error → String) where
  length-run_workload :
      (iteration i : ℕ) (ask : ℕ → F × Reply J) (ps : List (String × String))
      → length (run_workload text iteration i ask ps) ≤ length ps
  unfolding run_workload
  length-run_workload iteration i ask [] = omega arith
  length-run_workload iteration i ask ((prefix, query) ∷ ps) =
      let first : Option F = latency_of (generate text (ask i).0 (ask i).1) in
      omega (
        arith,
        length-append (line_if iteration i (String.◌++◌ prefix query) first)
            (run_workload text iteration (suc i) ask ps),
        length-line_if iteration i (String.◌++◌ prefix query) first,
        length-run_workload iteration (suc i) ask ps,
      )

  length-run_iterations :
      (left iteration : ℕ) (ask : ℕ → ℕ → F × Reply J) (ps : List (String × String))
      → length (run_iterations text left iteration ask ps) ≤ left * length ps
  unfolding run_iterations
  length-run_iterations zero iteration ask ps = omega arith
  length-run_iterations (suc left) iteration ask ps = grind (
    arith,
    length-append (run_workload text iteration 0 (ask iteration) ps)
        (run_iterations text left (suc iteration) ask ps),
    length-run_workload iteration 0 (ask iteration) ps,
    length-run_iterations left (suc iteration) ask ps,
  )

  length-run_long_bench :
      (num_iterations : ℕ) (ask : ℕ → ℕ → F × Reply J)
      → length (run_long_bench text num_iterations ask) ≤ num_iterations * 8
  unfolding run_long_bench shared_prefix_workload
  length-run_long_bench num_iterations ask =
      length-run_iterations num_iterations 0 ask (shared_prefix_workload 1000)

latencies_of-results_of :
    (f : Floats) (ls : List (Line f.F))
    → latencies_of f (results_of ls) ≡ map (λ l. l.latency_ms) ls
unfolding latencies_of
latencies_of-results_of f [] = refl
latencies_of-results_of f (l ∷ ls) = ap (◌∷◌ l.latency_ms) (latencies_of-results_of f ls)

length-map : {A B : Type 0} (g : A → B) (xs : List A) → length (map g xs) ≡ length xs
length-map g [] = refl
length-map g (x ∷ xs) = ap suc (length-map g xs)

module _ (f : Floats) (p95 p99 : f.F) (laws : StatLaws f p95 p99) {J : Type 0}
    (text : Error → String) where
  -- The statistics of a run of the workload in which some request succeeded: they are computed, they
  -- count the requests that did, at most eight in each iteration, and minimum, median, percentiles and
  -- maximum do not decrease. The floats do what `StatLaws` says, and there are fewer than 2 ^ 36
  -- iterations.
  pub compute_statistics-run_long_bench :
      (num_iterations : ℕ) (ask : ℕ → ℕ → f.F × Reply J)
      → num_iterations < 2 ^ 36
      → 0 < length (run_long_bench text num_iterations ask)
      → (s : Stats f) × (compute_statistics f p95 p99
            (results_of (run_long_bench text num_iterations ask))
          ≡ ok (some s))
        × (s.total_requests ≡ length (run_long_bench text num_iterations ask))
        × (s.total_requests ≤ num_iterations * 8)
        × InOrder f s
  compute_statistics-run_long_bench num_iterations ask few measured =
      let ls = run_long_bench text num_iterations ask in
      let most = length-run_long_bench text num_iterations ask in
      let count : length (latencies_of f (results_of ls)) ≡ length ls =
        ap length (latencies_of-results_of f ls) ∙ length-map (λ l. l.latency_ms) ls in
      let (s, e, total, order) =
        compute_statistics-InOrder f p95 p99 laws (results_of ls) (omega (arith, count))
          (omega (arith, count, most)) in
      (s, e, total ∙ count, omega (arith, total, count, most), order)
