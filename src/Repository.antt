-- ===== src/Repository.antt =====
-- session-controller/src/redis/repository.ts: how an event is offered to the script of Redis.
pub mod Accept
pub mod Attempts
pub mod Own
pub mod Reviewed
