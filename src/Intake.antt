-- ===== src/Intake.antt =====
-- session-controller/src/intake: the webhook that takes notifications from the bridge.
pub mod Timestamp
pub mod Calendar
pub mod Payload
pub mod Admission
pub mod Signature
pub mod Hex
pub mod Authenticity
pub mod Body
pub mod Server
pub mod Requests
pub mod Reading
