-- ===== src/Journal.antt =====
-- session-controller/src/pi/tool-journal-extension.ts: the journal of the tool calls that change
-- something outside.
pub mod Arguments
pub mod Begun
pub mod Confirmation
pub mod Evidence
pub mod Hooks
pub mod Live
pub mod Matching
pub mod Poison
pub mod Sends
pub mod Settled
pub mod Steps
pub mod Turn
pub mod Writes
