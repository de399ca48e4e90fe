-- ===== src/Metrics.antt =====
-- `MetricsCollector` of src/dakv/metrics/counters.py: the counters, the histograms as
-- their observations, and the global collector. The Prometheus client is not modelled.
pub mod Events
use awarekv.Prelude.{
  ℕ, ◌+◌, Bool, if◌then◌else◌, String, string_eq, Option, none, some, List, [], ◌∷◌, ◌==◌, ◌≡◌,
  refl,
}
use awarekv.Dict.{Dict, find, insert}
use awarekv.Dict.Laws.{find-insert}

pub record Counters : Type 0 where
  pub manifest_queries : ℕ
  pub manifest_hit : ℕ
  pub remote_critical_bytes : ℕ
  pub remote_refine_bytes : ℕ
  pub remote_critical_fail : ℕ
  pub refine_drop : ℕ
  pub recompute_fallback : ℕ

abbrev pub no_counts : Counters
no_counts = record {
  manifest_queries = 0;
  manifest_hit = 0;
  remote_critical_bytes = 0;
  remote_refine_bytes = 0;
  remote_critical_fail = 0;
  refine_drop = 0;
  recompute_fallback = 0;
}

unfoldable pub record_manifest_query : Bool → Counters → Counters
record_manifest_query hit c =
    if hit
    then record c { manifest_queries = c.manifest_queries + 1; manifest_hit = c.manifest_hit + 1 }
    else record c { manifest_queries = c.manifest_queries + 1 }

unfoldable pub record_critical_bytes : ℕ → Counters → Counters
record_critical_bytes n c = record c { remote_critical_bytes = c.remote_critical_bytes + n }

unfoldable pub record_recompute : Counters → Counters
record_recompute c = record c { recompute_fallback = c.recompute_fallback + 1 }

unfoldable pub record_refine_bytes : ℕ → Counters → Counters
record_refine_bytes n c = record c { remote_refine_bytes = c.remote_refine_bytes + n }

unfoldable pub record_critical_fail : Counters → Counters
record_critical_fail c = record c { remote_critical_fail = c.remote_critical_fail + 1 }

unfoldable pub record_refine_drop : Counters → Counters
record_refine_drop c = record c { refine_drop = c.refine_drop + 1 }

-- `MetricsCollector` with the observations of its two histograms, the latest first, and the metrics of
-- the requests. Times are in F and a request's metrics in D.
pub record Collector (F D : Type 0) : Type 0 where
  pub counters : Counters
  pub ttft_ms : List F
  pub tpot_ms : List F
  pub request_metrics : Dict String D

module _ {F D : Type 0} where
  unfoldable pub new_collector : Collector F D
  new_collector = record { counters = no_counts; ttft_ms = []; tpot_ms = []; request_metrics = [] }

  unfoldable pub record_ttft : F → Collector F D → Collector F D
  record_ttft x c = record c { ttft_ms = x ∷ c.ttft_ms }

  unfoldable pub record_tpot : F → Collector F D → Collector F D
  record_tpot x c = record c { tpot_ms = x ∷ c.tpot_ms }

  unfoldable pub record_request_metric : String → D → Collector F D → Collector F D
  record_request_metric rid d c = record c { request_metrics = insert rid d c.request_metrics }

  -- `get_metrics_collector`, on the global variable: the collector, and the variable after the call
  unfoldable pub get_metrics_collector :
      Option (Collector F D) → Collector F D × Option (Collector F D)
  unfolding new_collector
  get_metrics_collector none = (new_collector, some new_collector)
  get_metrics_collector (some c) = (c, some c)

  -- The metrics of a request are the last that were recorded for it.
  pub find-record_request_metric :
      (rid j : String) (d : D) (c : Collector F D)
      → find j (record_request_metric rid d c).request_metrics
        ≡ (if rid == j then some d else find j c.request_metrics)
  unfolding record_request_metric
  find-record_request_metric rid j d c = find-insert rid j d c.request_metrics

  -- Every later call returns the collector of the first one.
  pub get_metrics_collector_again :
      (g : Option (Collector F D))
      → (get_metrics_collector (get_metrics_collector g).1).0 ≡ (get_metrics_collector g).0
  unfolding get_metrics_collector
  get_metrics_collector_again none = refl
  get_metrics_collector_again (some c) = refl
