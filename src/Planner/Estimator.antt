-- ===== src/Planner/Estimator.antt =====
-- src/dakv/planner/estimator.py; the lock makes each method one step.
use awarekv.Prelude.{ℕ, ◌*◌, Option, none, some, Result, ok, ◌>>=◌, if◌then◌else◌}
use awarekv.Planner.Floats.{Floats}

module _ (f : Floats) where
  open f use {F, of_nat, add, sub, mul, div, lt}

  -- `NetworkEstimate` of src/dakv/common/types.py; its `loss_rate` is always 0.0.
  pub record NetworkEstimate : Type 0 where
    pub bandwidth_bps : F
    pub rtt_ms : F
    pub last_update_ms : ℕ

  pub record BandwidthEstimator : Type 0 where
    pub alpha : F
    pub ewma_bps : F
    pub ewma_rtt_ms : F
    pub last_update_ms : ℕ

  unfoldable pub new_estimator : F → BandwidthEstimator
  new_estimator alpha = record {
    alpha = alpha;
    ewma_bps = f.default_bps;
    ewma_rtt_ms = f.default_rtt;
    last_update_ms = 0;
  }

  -- alpha * measured + (1 - alpha) * old
  abbrev pub blend : F → F → F → F
  blend alpha measured old = add (mul alpha measured) (mul (sub (of_nat 1) alpha) old)

  abbrev pub blend_rtt : BandwidthEstimator → Option F → F
  blend_rtt e none = e.ewma_rtt_ms
  blend_rtt e (some rtt) =
      if lt (of_nat 0) rtt then blend e.alpha rtt e.ewma_rtt_ms else e.ewma_rtt_ms

  -- `update`; `now` is the reading of the clock
  unfoldable pub update : BandwidthEstimator → ℕ → F → Option F → ℕ → Result BandwidthEstimator
  update e nbytes duration rtt now =
      (if lt (of_nat 0) duration
        then (do
          measured ← div (mul (of_nat (nbytes * 8)) (of_nat 1000)) duration
          ok (blend e.alpha measured e.ewma_bps))
        else ok e.ewma_bps)
      >>= λ bps.
          ok (record e { ewma_bps = bps; ewma_rtt_ms = blend_rtt e rtt; last_update_ms = now })

  unfoldable pub get_estimate : BandwidthEstimator → NetworkEstimate
  get_estimate e = record {
    bandwidth_bps = e.ewma_bps;
    rtt_ms = e.ewma_rtt_ms;
    last_update_ms = e.last_update_ms;
  }
