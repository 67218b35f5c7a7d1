-- ===== src/Compaction.antt =====
-- session-controller/src/compaction: when a session is compacted.
pub mod Usage
pub mod Headroom
pub mod Sensitive
pub mod Checkpoint
pub mod History
pub mod Backing
pub mod Confirmed
pub mod Summary
pub mod Orphan
pub mod Generation
pub mod Quiet
pub mod Unclaimed
pub mod Fractions
pub mod Instants
pub mod Orphanhood
