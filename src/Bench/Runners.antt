-- ===== src/Bench/Runners.antt =====
-- src/dakv/bench/workloads.py, `LongBenchRunner.run` of src/dakv/bench/longbench_runner.py,
-- `MMLURunner.run` of src/dakv/bench/mmlu_runner.py, and `run_shared_prefix_benchmark` and the average of
-- `main` of src/scripts/run_bench.py. Prompts are ASCII texts, whose lengths are their bytes.
pub mod Measured
use Prim.Native.String
use awarekv.Prelude.{
  ℕ, zero, suc, ◌+◌, ◌/◌, String, Option, none, some, List, [], ◌∷◌, ◌++◌, map, take, length,
  Result, ok, raise, Error, ◌>>=◌,
}
use awarekv.Planner.Floats.{Floats}
use awarekv.Bench.Client.{Reply, generate, latency_of, generate_or_raise}
use awarekv.Bench.MetricsParser.{total}

-- text * n
unfoldable pub times : ℕ → String → String
times zero s = ""
times (suc n) s = String.◌++◌ s (times n s)

abbrev pub queries : List String
queries =
    "What does this mean?" ∷ "Can you explain this in detail?"
    ∷ "Tell me more about the significance." ∷ "What are the implications?"
    ∷ "How does this relate to the topic?" ∷ "Can you provide examples?"
    ∷ "What is the context here?" ∷ "Why is this important?" ∷ []

unfoldable pub shared_prefix_workload : ℕ → List (String × String)
unfolding times
shared_prefix_workload prefix_tokens =
    let prefix = times (prefix_tokens / 10) "The quick brown fox jumps over the lazy dog. " in
    map (λ q. (prefix, q)) queries

-- a line of the results
pub record Line (F : Type 0) : Type 0 where
  pub iteration : ℕ
  pub request_id : ℕ
  pub prompt_length : ℕ
  pub latency_ms : F

module _ {F : Type 0} where
  -- `results.append`, if the request succeeded
  abbrev pub line_if : (iteration i : ℕ) → String → Option F → List (Line F)
  line_if iteration i prompt none = []
  line_if iteration i prompt (some latency) =
      (record {
        iteration = iteration;
        request_id = i;
        prompt_length = String.len prompt;
        latency_ms = latency;
      })
      ∷ []

module _ {F J : Type 0} (text : Error → String) where
  -- the loop over the workload; `ask` is the time and the reply of a request of this iteration
  unfoldable pub run_workload :
      (iteration i : ℕ) → (ℕ → F × Reply J) → List (String × String) → List (Line F)
  unfolding generate latency_of
  run_workload iteration i ask [] = []
  run_workload iteration i ask ((prefix, query) ∷ ps) =
      line_if iteration i (String.◌++◌ prefix query)
        (latency_of (generate text (ask i).0 (ask i).1))
      ++ run_workload iteration (suc i) ask ps

  -- the loop over the iterations, with those that are left
  unfoldable pub run_iterations :
      (left iteration : ℕ) → (ℕ → ℕ → F × Reply J) → List (String × String) → List (Line F)
  unfolding run_workload
  run_iterations zero iteration ask ps = []
  run_iterations (suc left) iteration ask ps =
      run_workload iteration 0 (ask iteration) ps ++ run_iterations left (suc iteration) ask ps

  -- `LongBenchRunner.run`
  unfoldable pub run_long_bench : ℕ → (ℕ → ℕ → F × Reply J) → List (Line F)
  unfolding run_iterations shared_prefix_workload
  run_long_bench num_iterations ask =
      run_iterations num_iterations 0 ask (shared_prefix_workload 1000)

  -- the loop of `MMLURunner.run`: a line is the number of the question, the question and the latency
  unfoldable pub run_questions : ℕ → (ℕ → F × Reply J) → List String → List (ℕ × String × F)
  unfolding generate latency_of
  run_questions i ask [] = []
  run_questions i ask (q ∷ qs) =
      let rest = run_questions (suc i) ask qs in
      elim (latency_of (generate text (ask i).0 (ask i).1)) [
        | none ↦ rest
        | some latency ↦ (i, q, latency) ∷ rest
      ]

  -- `MMLURunner.run`, on its sample questions
  unfoldable pub run_mmlu : ℕ → (ℕ → F × Reply J) → List String → List (ℕ × String × F)
  unfolding run_questions
  run_mmlu num_questions ask questions = run_questions 0 ask (take num_questions questions)

module _ {F J : Type 0} where
  -- the loop of `run_shared_prefix_benchmark`, which an exception of the client ends
  unfoldable pub run_suffixes : ℕ → (ℕ → F × Reply J) → List String → Result (List (F × J))
  unfolding generate_or_raise
  run_suffixes i ask [] = ok []
  run_suffixes i ask (s ∷ ss) = do
    result ← generate_or_raise (ask i).0 (ask i).1
    rest ← run_suffixes (suc i) ask ss
    ok (elim result [ none ↦ rest | some r ↦ r ∷ rest ])

  unfoldable pub run_shared_prefix_benchmark : (ℕ → F × Reply J) → Result (List (F × J))
  unfolding run_suffixes
  run_shared_prefix_benchmark ask = run_suffixes 0 ask (
      "What does this mean?" ∷ "Can you explain this?" ∷ "Tell me more about this."
      ∷ "What is the significance?" ∷ [])

-- the average that `main` logs, if there are results
unfoldable pub average_latency : (f : Floats) {J : Type 0} → List (f.F × J) → Result (Option f.F)
average_latency f [] = ok none
average_latency f (r ∷ rs) = do
  mean ← f.div (total f (f.of_nat 0) (map (λ x. x.0) (r ∷ rs))) (f.of_nat (length (r ∷ rs)))
  ok (some mean)
