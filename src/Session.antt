-- ===== src/Session.antt =====
-- session-controller/src/pi/: the session files, the completion index over them, and the journal of
-- the tool calls.
pub mod Log
pub mod Evidence
pub mod Chunks
pub mod Counting
pub mod Proofs
pub mod Stillness
pub mod Paths
pub mod Index
pub mod Lookup
pub mod Serving
pub mod Misses
pub mod Absence
pub mod Calls
pub mod Reader
pub mod Heads
