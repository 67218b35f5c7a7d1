-- ===== src/Scheduler.antt =====
-- session-controller/src/scheduler/: the worker that runs the turn of one claimed event.
pub mod Work
pub mod Machine
pub mod Ownership
pub mod Worker
pub mod Protocol
pub mod Gating
pub mod Course
pub mod Memory
pub mod Turns
pub mod Coordinator
pub mod Tasks
pub mod Stopping
