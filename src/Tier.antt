-- ===== src/Tier.antt =====
-- src/dakv/tier: the host cache (tier 1) and the writes into the paged cache of the GPU (tier 0).
pub mod HostCache
pub mod Rows
pub mod GpuApply
pub mod Placement
