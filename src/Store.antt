-- ===== src/Store.antt =====
-- src/dakv/store: the manifest index and its service, the object store, the eviction policy.
pub mod Models
pub mod MemoryIndex
pub mod ManifestService
pub mod Eviction
pub mod LocalDisk
