-- ===== src/Transport/Throttling.antt =====
-- `Throttler` of src/dakv/transport/throttling.py. Floats and the readings of the clock are parameters.
use awarekv.Prelude.{ℕ, Option, none, some, if◌then◌else◌, Result, ok, ◌>>=◌}
use awarekv.Planner.Floats.{Floats}

module _ (f : Floats) where
  pub record Throttler : Type 0 where
    pub bandwidth_bps : f.F
    pub last_send_time : f.F

module _ {f : Floats} where
  -- the time for which it sleeps, if it does, and the state; the clock is read before and after
  unfoldable pub throttle : f.F → f.F → ℕ → Throttler f → Result (Option f.F × Throttler f)
  throttle now later nbytes t = if f.ge (f.of_nat 0) t.bandwidth_bps then ok (none, t) else do
    required_time_s ← f.div (f.of_nat nbytes) t.bandwidth_bps
    let elapsed = f.sub now t.last_send_time
    let sleep_time =
        (if f.lt elapsed required_time_s then some (f.sub required_time_s elapsed) else none)
    ok (sleep_time, record t { last_send_time = later })
