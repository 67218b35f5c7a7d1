-- ===== src/Redis.antt =====
-- session-controller/src/redis: the Lua script that owns every durable key of a chat.
pub mod Decimal
pub mod Store
pub mod Intake
pub mod App
pub mod Claim
pub mod Turn
pub mod Journal
pub mod Documents
pub mod Checkpoint
pub mod Repair
pub mod Script
pub mod Fencing
pub mod Epochs
pub mod Order
pub mod Sequences
pub mod Admission
pub mod Pauses
pub mod Completion
pub mod Recovery
