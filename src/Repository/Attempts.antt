-- ===== src/Repository/Attempts.antt =====
-- `accept` of redis/repository.ts: what its answer says of Redis, and when it tries again.
use whats_app_mcp_server.Base.{
  ℕ, zero, suc, ◌≡◌, ◌≢◌, ◌⊎◌, refl, arith, Option, none, some, false, Text, text_eq_iff, lookup,
  ap,
}
use whats_app_mcp_server.Domain.Errors.{Result, ok, err}
use whats_app_mcp_server.Domain.Events.{Notification}
use whats_app_mcp_server.Domain.Fingerprint.{decimal}
use whats_app_mcp_server.Redis.Store.{Event, Store, Reply, or_zero}
use whats_app_mcp_server.Redis.Store as Redis
use whats_app_mcp_server.Redis.Script.{run, snapshots, accepts}
use whats_app_mcp_server.Redis.Intake.{AcceptArgs}
use whats_app_mcp_server.Redis.Admission.{accepted_event}
use whats_app_mcp_server.Intake.Server.{Acceptance, accepted}
use whats_app_mcp_server.Repository.Accept.{
  Surroundings, Looked, failed, conflicting, looked, look, args, status_in, offer_looked,
  revision_in, identity_in, offer, attempts,
}

module _ {S : Type 0} (v : Surroundings S) (e : Notification) (fingerprint raw : Text) where
  -- The event waits in Redis as it was offered.
  abbrev pub Waits : Store S → Type 0
  Waits t =
      (x : Event) × (lookup e.event_id t.events ≡ some x)
      × (x.fp ≡ fingerprint)
      × (x.seq ≡ decimal 16 e.chat_sequence)
      × (x.raw ≡ raw)

  reply_accepted :
      (x : Store S × Reply) (t : Store S)
      → x.0 ≡ t
      → status_in v e fingerprint raw x.1 ≡ ok (some accepted)
      → x ≡ (t, Redis.accepted)
  reply_accepted (s, r) t g h = ground arith

  offer_looked-Waits :
      (n : ℕ) (seen : Reply) (s t : Store S) (l : Looked)
      → offer_looked v e fingerprint raw n seen s l ≡ (t, ok (some accepted))
      → Waits t
  offer_looked-Waits n seen s t failed h = ground arith
  offer_looked-Waits n seen s t conflicting h = ground arith
  offer_looked-Waits n seen s t (looked b) h =
      let a =
        args v e fingerprint raw (revision_in v e fingerprint raw seen)
          (identity_in v e fingerprint raw seen) b in
      let u = v.before_accept n s in
      let stored =
        accepted_event v.ports u t v.time a (
          reply_accepted (run v.ports u v.time (accepts a)) t (ap (λ y. y.0) h)
            (ap (λ y. y.1) h)) in
      (_, stored.0, refl, refl, refl)

  attempts_step :
      (n : ℕ) (x : Store S × Result (Option Acceptance)) (t : Store S)
      → ((u : Store S) → attempts v e fingerprint raw n u ≡ (t, ok accepted) → Waits t)
      → (x ≡ (t, ok (some accepted)) → Waits t)
      → elim x.1 as (λ _. Store S × Result Acceptance) [
        | err y ↦ (x.0, err y)
        | ok o ↦ elim o as (λ _. Store S × Result Acceptance) [
          | none ↦ attempts v e fingerprint raw n x.0
          | some a ↦ (x.0, ok a)
        ]
      ]
        ≡ (t, ok accepted)
      → Waits t
  attempts_step n (s, err y) t again now h = ground arith
  attempts_step n (s, ok none) t again now h = again s h
  attempts_step n (s, ok (some a)) t again now h = now (ground arith)

  -- Whatever other processes do to Redis meanwhile, and however often it has to try again, an offer
  -- that is answered `accepted` leaves its event in Redis, with its fingerprint, its sequence and
  -- its text.
  pub accepted-Waits :
      (n : ℕ) (s t : Store S) → attempts v e fingerprint raw n s ≡ (t, ok accepted) → Waits t
  unfolding attempts offer
  accepted-Waits zero s t h = ground arith
  accepted-Waits (suc n) s t h =
      attempts_step n (offer v e fingerprint raw n s) t (λ u. accepted-Waits n u t)
        (λ g.
          offer_looked-Waits n (run v.ports s v.time snapshots).1
            (v.before_lookup n (run v.ports s v.time snapshots).0) t
            (look v e fingerprint raw n (v.before_lookup n (run v.ports s v.time snapshots).0)
              v.chats false)
            g)
        h

  -- The revisions that the store has are not the two that the call names.
  abbrev Moved : Store S → Text → Text → Type 0
  Moved u revision identity =
      (or_zero u.state.revision ≢ revision) ⊎ (or_zero u.app.identity_revision ≢ identity)

  run-retry :
      (u : Store S) (a : AcceptArgs)
      → status_in v e fingerprint raw (run v.ports u v.time (accepts a)).1 ≡ ok none
      → Moved u a.revision a.identity_revision
  unfolding run
  run-retry u a h = ground (
    arith,
    text_eq_iff (or_zero u.state.revision) a.revision,
    text_eq_iff (or_zero u.app.identity_revision) a.identity_revision,
  )

  offer_looked-Moved :
      (n : ℕ) (seen : Reply) (s : Store S) (l : Looked)
      → (offer_looked v e fingerprint raw n seen s l).1 ≡ ok none
      → Moved
          (v.before_accept n s)
          (revision_in v e fingerprint raw seen)
          (identity_in v e fingerprint raw seen)
  offer_looked-Moved n seen s failed h = ground arith
  offer_looked-Moved n seen s conflicting h = ground arith
  offer_looked-Moved n seen s (looked b) h = run-retry (v.before_accept n s) _ h

  -- An attempt is made again only if another process has moved one of the two revisions since the
  -- attempt's snapshot: undisturbed, the first attempt answers.
  pub offer_again :
      (n : ℕ) (s : Store S)
      → (offer v e fingerprint raw n s).1 ≡ ok none
      → let u = v.before_accept n (v.before_lookup n s) in
        (or_zero u.state.revision ≢ or_zero s.state.revision)
        ⊎ (or_zero u.app.identity_revision ≢ or_zero s.app.identity_revision)
  unfolding offer run
  offer_again n s h =
      offer_looked-Moved n (run v.ports s v.time snapshots).1 (v.before_lookup n s)
        (look v e fingerprint raw n (v.before_lookup n s) v.chats false) h
