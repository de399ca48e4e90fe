-- ===== src/Tests.antt =====
-- Concrete inputs, and the theorems applied to them.
pub mod TestJson
pub mod TestData
pub mod Planning
pub mod Scheduling
pub mod Storing
pub mod Threads
pub mod Working
pub mod Saving
pub mod Configuring
pub mod Connecting
pub mod Statuses
pub mod Wire
