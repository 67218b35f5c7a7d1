-- ===== src/Redis/Recovery.antt =====
-- redis/scripts.ts: what the repair of a failed compaction rests on, and what it leaves alone.
use whats_app_mcp_server.Base.{
  ℕ, Bool, false, true, Option, none, some, [], Text, is_empty, ◌≡◌, ◌≢◌, ◌⊎◌, refl, arith, inl,
  inr, Option-cases, lookup, text_eq_iff, holds_iff,
}
use whats_app_mcp_server.Redis.Decimal.{inc}
use whats_app_mcp_server.Redis.Store.{
  Store, Reply, ok, Work, or_zero, compaction_failed, repair_claimed, ineligible, unsafe,
  intent_required,
}
use whats_app_mcp_server.Redis.Documents.{
  Recovery, Checkpoint, Decoder, prepared, compacted, restored,
}
use whats_app_mcp_server.Redis.Repair.{
  StreamReads, Evidence, Proof, proved, refused, crashed, RepairArgs, repair_evidence, is_prepared,
  is_row, is_pending, is_bound,
}
use whats_app_mcp_server.Redis.Checkpoint.{TransitionArgs, AbortArgs, bad_transition}
use whats_app_mcp_server.Redis.Script.{
  Ports, Call, claims_repair, intends_repair, releases_fence, releases_repair, moves_checkpoint,
  aborts_checkpoint, run,
}

-- A recovery binding fits; a record without one wants an intent.
abbrev pub Bound : Evidence → Text → Option Recovery → Type 0
Bound v intent none = is_empty intent ≡ false
Bound v intent (some r) = is_bound r v.event v.entry v.binding ≡ true

-- What a proof of an interrupted compaction says of the store.
pub record Interrupted {S : Type 0} (d : Decoder) (reads : StreamReads S) (s : Store S)
    (chat group intent : Text) (v : Evidence) : Type 0 where
  pub chat_of : s.state.chat ≡ some chat
  pub failed : s.state.pause ≡ some compaction_failed
  pub no_turn : s.state.turn_event ≡ none
  pub no_tools : s.tools ≡ []
  pub record_raw : s.checkpoint ≡ some v.raw
  pub record_of : d.checkpoint v.raw ≡ some v.prepared
  pub is_prepared_of : is_prepared v.prepared chat ≡ true
  pub session_raw : s.state.session ≡ some v.session
  pub session_of : d.binding v.session ≡ some v.binding
  pub next_event : lookup (inc (or_zero s.state.cursor)) s.seqs ≡ some v.event
  pub entry_of : lookup v.event s.events ≡ some v.entry
  pub in_stream : is_row (reads.xrange s.stream v.entry.id) v.event ≡ true
  pub is_bound_of : Bound v intent v.prepared.recovery
  pub is_pending_of : is_pending (reads.xpending s.stream group v.entry.id) v.entry.id ≡ true

Proof-cases :
    (q : Proof)
    → ((v : Evidence) × (q ≡ proved v)) ⊎ ((q ≡ crashed) ⊎ ((r : Reply) × (q ≡ refused r)))
Proof-cases (proved v) = inl (v, refl)
Proof-cases (refused r) = inr (inr (r, refl))
Proof-cases crashed = inr (inl refl)

module _ {S : Type 0} (d : Decoder) (reads : StreamReads S) (s : Store S) where
  repair_evidence-Interrupted :
      (chat group intent : Text) (v : Evidence)
      → repair_evidence d reads s chat group intent ≡ proved v
      → Interrupted d reads s chat group intent v
  unfolding repair_evidence
  repair_evidence-Interrupted chat group intent v h = ground (arith, holds_iff s.state.chat chat)

  repair_evidence-refused :
      (chat group intent : Text) (r : Reply)
      → repair_evidence d reads s chat group intent ≡ refused r
      → (r ≡ ineligible) ⊎ (r ≡ unsafe) ⊎ (r ≡ intent_required)
  unfolding repair_evidence
  repair_evidence-refused chat group intent r h = ground arith

-- The calls that grant or return a lease for a repair.
abbrev pub is_repair : Call → Bool
is_repair (intends_repair a) = true
is_repair (claims_repair a intent) = true
is_repair (releases_fence f) = true
is_repair (releases_repair w expected) = true
is_repair _ = false

module _ {S : Type 0} where
  -- The work of the chat and its session are left alone.
  abbrev pub SameWork : Store S → Store S → Type 0
  SameWork s t =
      (t.stream ≡ s.stream)
      × (t.events ≡ s.events)
      × (t.seqs ≡ s.seqs)
      × (t.tools ≡ s.tools)
      × (t.identities ≡ s.identities)
      × (t.state.cursor ≡ s.state.cursor)
      × (t.state.session ≡ s.state.session)

module _ {S : Type 0} (p : Ports S) (s t : Store S) (now : ℕ) where
  -- Granting and returning a repair's lease leaves the stream, the waiting events, the journal, the
  -- cursor, the session, the pause and the checkpoint as they are.
  pub repair_leaves_work :
      (c : Call)
      → is_repair c ≡ true
      → let u = (run p s now c).0 in
        SameWork s u × (u.state.pause ≡ s.state.pause) × (u.checkpoint ≡ s.checkpoint)
  unfolding run
  repair_leaves_work (claims_repair a intent) h = ground arith
  repair_leaves_work _ h = ground arith

  -- A repair is granted only for an interrupted compaction of the chat, and answers with its event,
  -- its session and its record.
  pub repair_needs_evidence :
      (a : RepairArgs) (intent id raw session checkpoint : Text) (epoch : Option Text) (until : ℕ)
      → run p s now (claims_repair a intent)
        ≡ (t, repair_claimed id raw session checkpoint epoch until)
      → (v : Evidence) × Interrupted p.decoder p.reads s a.chat a.group intent v
        × (id ≡ v.entry.id)
        × (raw ≡ v.entry.raw)
        × (session ≡ v.session)
        × (checkpoint ≡ v.raw)
        × (t.lease.event ≡ some v.event)
  unfolding run
  repair_needs_evidence a intent id raw session checkpoint epoch until r =
      elim (Proof-cases (repair_evidence p.decoder p.reads s a.chat a.group intent)) [
        | inl (v, e) ↦ (
          v,
          repair_evidence-Interrupted p.decoder p.reads s a.chat a.group intent v e,
          ground (arith, e, r),
          ground (arith, e, r),
          ground (arith, e, r),
          ground (arith, e, r),
          ground (arith, e, r),
        )
        | inr (inl e) ↦ absurd (ground (arith, e, r))
        | inr (inr (q, e)) ↦ absurd (
            ground
              (arith, e, r, repair_evidence-refused p.decoder p.reads s a.chat a.group intent q e))
      ]

  -- A checkpoint abort that succeeds had evidence of an interrupted compaction for the work that it names, on the record that the
  -- caller expects; it writes the aborted record, ends the pause and the lease, and leaves the work.
  pub abort_needs_evidence :
      (w : Work) (a : AbortArgs)
      → run p s now (aborts_checkpoint w a) ≡ (t, ok)
      → (chat : Text) × (v : Evidence) × Interrupted p.decoder p.reads s chat a.group a.intent v
        × (v.event ≡ w.event)
        × (v.raw ≡ a.expected)
        × SameWork s t
        × (t.checkpoint ≡ some a.next)
        × (t.state.pause ≡ none)
        × (t.lease.owner ≡ none)
  unfolding run
  abort_needs_evidence w a r = elim (Option-cases (p.decoder.binding a.session)) [
    | inl missing ↦ absurd (ground (arith, missing, r))
    | inr (b, decoded) ↦ elim (Option-cases b.canonical_chat_id) [
      | inl missing ↦ absurd (ground (arith, decoded, missing, r))
      | inr (chat, named) ↦
          elim (Proof-cases (repair_evidence p.decoder p.reads s chat a.group a.intent)) [
            | inl (v, e) ↦ (
              chat,
              v,
              repair_evidence-Interrupted p.decoder p.reads s chat a.group a.intent v e,
              ground (arith, decoded, named, e, r, text_eq_iff v.event w.event),
              ground (arith, decoded, named, e, r, text_eq_iff v.raw a.expected),
              ground (arith, decoded, named, e, r),
              ground (arith, decoded, named, e, r),
              ground (arith, decoded, named, e, r),
              ground (arith, decoded, named, e, r),
            )
            | inr bad ↦ absurd (ground (arith, decoded, named, bad, r))
          ]
    ]
  ]

  -- A checkpoint moves only from the record that the caller expects: to `compacted` from
  -- `prepared`, to `restored` from `compacted` by the same compaction entry.
  pub checkpoint_moves :
      (w : Work) (a : TransitionArgs)
      → run p s now (moves_checkpoint w a) ≡ (t, ok)
      → (c : Checkpoint) × (s.checkpoint ≡ some a.expected)
        × (p.decoder.checkpoint a.expected ≡ some c)
        × (c.checkpoint_id ≡ some a.checkpoint_id)
        × ((a.phase ≢ compacted) ⊎ (c.phase ≡ prepared))
        × ((a.phase ≢ restored) ⊎ (c.phase ≡ compacted) × (c.compaction_entry_id ≡ some a.entry_id))
        × (t.checkpoint ≡ some a.next)
        × SameWork s t
  unfolding run bad_transition
  checkpoint_moves w a r = elim (Option-cases s.checkpoint) [
    | inl missing ↦ absurd (ground (arith, missing, r))
    | inr (raw, stored) ↦
        let same : raw ≡ a.expected = ground (arith, stored, r, text_eq_iff raw a.expected) in
        elim (Option-cases (p.decoder.checkpoint raw)) [
          | inl missing ↦ absurd (ground (arith, stored, missing, r))
          | inr (c, decoded) ↦ (
            c,
            cc,
            cc,
            ground (arith, stored, decoded, r, holds_iff c.checkpoint_id a.checkpoint_id),
            ground (
              arith,
              stored,
              decoded,
              r,
              text_eq_iff a.phase compacted,
              text_eq_iff c.phase prepared,
            ),
            ground (
              arith,
              stored,
              decoded,
              r,
              text_eq_iff a.phase restored,
              text_eq_iff c.phase compacted,
              holds_iff c.compaction_entry_id a.entry_id,
            ),
            ground (arith, stored, decoded, r),
            ground (arith, stored, decoded, r),
          )
        ]
  ]
