-- ===== src/Bench.antt =====
-- src/dakv/bench and src/scripts/run_bench.py: the drivers of the benchmarks and the statistics of what
-- they measure.
pub mod Client
pub mod Runners
pub mod MetricsParser
