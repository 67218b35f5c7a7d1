-- ===== src/Tests.antt =====
-- Runs of the models on small inputs, and the theorems at inputs that meet their hypotheses.
mod Setup
mod Leases
mod Events
mod Repairs
mod Webhook
mod Workers
mod Requests
mod Coordinators
mod Journals
mod Offers
mod Sessions
mod Checkpoints
mod Orphans
mod Owns
