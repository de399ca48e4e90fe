-- ===== src/Planner.antt =====
-- src/dakv/planner: the network estimate and the choice of a transfer plan. Python's floats are a
-- parameter.
pub mod Floats
pub mod Estimator
pub mod Deadline
