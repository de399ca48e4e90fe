-- ===== src/Common.antt =====
-- src/dakv/common
pub mod Types
pub mod Hashing
pub mod Calls
pub mod Timer
