-- ===== src/Redis/Admission.antt =====
-- redis/scripts.ts, `accept`: an event is admitted once, under one identity and one sequence.
use whats_app_mcp_server.Base.{
  ℕ, true, none, some, text_eq_iff, text_eq_refl, ◌≡◌, ◌≢◌, ◌⊎◌, arith, lookup, lookup-insert,
}
use whats_app_mcp_server.Redis.Decimal.{less}
use whats_app_mcp_server.Redis.Store.{Store, accepted, duplicate, conflict, or_zero, barrier}
use whats_app_mcp_server.Redis.Intake.{AcceptArgs, identity_of}
use whats_app_mcp_server.Redis.Script.{Ports, accepts, run}

module _ {S : Type 0} (p : Ports S) (s t : Store S) (now : ℕ) (a : AcceptArgs) where
  -- What an acceptance leaves behind: the event with its fingerprint and sequence, its identity,
  -- and the two revisions, which it read.
  pub accepted_event :
      run p s now (accepts a) ≡ (t, accepted)
      → (lookup a.event t.events
          ≡ some (record {
            id = (p.xadd s.stream a.event).1;
            fp = a.fingerprint;
            seq = a.seq;
            raw = a.raw;
          }))
        × (lookup a.event t.identities ≡ some (identity_of a.chat a.fingerprint))
        × (or_zero t.state.revision ≡ a.revision)
        × (or_zero t.app.identity_revision ≡ a.identity_revision)
        × (less (or_zero s.state.cursor) a.seq ≡ true)
        × (lookup a.seq t.seqs ≡ some a.event)
  unfolding run
  accepted_event done = ground (
    arith,
    text_eq_refl a.event,
    text_eq_refl a.seq,
    text_eq_iff (or_zero s.state.revision) a.revision,
    text_eq_iff (or_zero s.app.identity_revision) a.identity_revision,
    lookup-insert a.event a.event (identity_of a.chat a.fingerprint) s.identities,
    lookup-insert a.seq a.seq a.event s.seqs,
    lookup-insert a.event a.event
        (record { id = (p.xadd s.stream a.event).1; fp = a.fingerprint; seq = a.seq; raw = a.raw })
        s.events,
  )

  -- The call that was accepted, made again at once, is a duplicate: only the durability counter moves.
  pub accept_again :
      run p s now (accepts a) ≡ (t, accepted)
      → (later : ℕ) → run p t later (accepts a) ≡ (barrier t, duplicate)
  unfolding run
  accept_again done later = ground (
    arith,
    accepted_event done,
    text_eq_refl a.revision,
    text_eq_refl a.identity_revision,
    text_eq_refl a.fingerprint,
    text_eq_refl a.seq,
    text_eq_refl (identity_of a.chat a.fingerprint),
  )

  -- Immediately after an acceptance, whatever the time, and offered with the two revisions that it
  -- was offered with, the same event with another fingerprint or another sequence is a conflict, and
  -- so is another event, not waiting itself, under the same sequence. Nothing changes.
  pub accept_changed :
      run p s now (accepts a) ≡ (t, accepted)
      → (later : ℕ) (b : AcceptArgs) → b.revision ≡ a.revision
      → b.identity_revision ≡ a.identity_revision
      → ((b.event ≡ a.event) × (b.fingerprint ≢ a.fingerprint ⊎ (b.seq ≢ a.seq)))
        ⊎ ((b.seq ≡ a.seq) × (b.event ≢ a.event) × (lookup b.event t.events ≡ none))
      → run p t later (accepts b) ≡ (t, conflict)
  unfolding run
  accept_changed done later b r q changed = ground (
    arith,
    accepted_event done,
    changed,
    text_eq_refl a.revision,
    text_eq_refl a.identity_revision,
    text_eq_iff a.fingerprint b.fingerprint,
    text_eq_iff a.seq b.seq,
    text_eq_iff a.event b.event,
  )
