-- ===== src/Domain.antt =====
-- session-controller/src/domain.ts: the types and checks that all parts share.
pub mod Pauses
pub mod Errors
pub mod Patterns
pub mod Events
pub mod Fingerprint
pub mod Schemas
pub mod Mutations
pub mod Checkpoints
