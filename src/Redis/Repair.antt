-- ===== src/Redis/Repair.antt =====
-- `repairEvidence` and the operations `repair-intent`, `repair-claim`, `repair-release-fence` and
-- `repair-release` of redis/scripts.ts.
use whats_app_mcp_server.Base.{
  ℕ, ◌+◌, Bool, true, false, not, ◌&&◌, ◌||◌, Option, none, some, List, [], ◌∷◌, ltb, ◌==◌,
  if◌then◌else◌, length, is_empty, Text, text, text_eq, holds, lookup, is_some,
}
use whats_app_mcp_server.Redis.Decimal.{inc}
use whats_app_mcp_server.Redis.Store.{
  PauseReason, compaction_failed, Lease, Event, Store, or_zero, Reply, ok, busy, lost, ineligible,
  unsafe, intent_required, store_unavailable, repair_claimed, Fence, Work, app_alive, chat_busy,
  grant, barrier,
}
use whats_app_mcp_server.Redis.Intake.{exists}
use whats_app_mcp_server.Redis.Turn.{on_work}
use whats_app_mcp_server.Redis.Documents.{
  Binding, Recovery, Checkpoint, Decoder, same_binding, valid_generation, prepared,
}

-- `XRANGE` of one id: rows of an id and its fields. `XPENDING` of one id: the pending ids.
pub record StreamReads (S : Type 0) : Type 0 where
  pub xrange : S → Text → List (Text × List Text)
  pub xpending : S → Text → Text → List Text

pub record Evidence : Type 0 where
  pub event : Text
  pub entry : Event
  pub session : Text
  pub binding : Binding
  pub raw : Text
  pub prepared : Checkpoint

-- The proof, or the reason of its refusal, or an error of the script.
pub data Proof : Type 0 where
  proved : Evidence → Proof
  refused : Reply → Proof
  crashed : Proof

abbrev is_compaction_failed : Option PauseReason → Bool
is_compaction_failed (some compaction_failed) = true
is_compaction_failed _ = false

-- The record has no more than its fields, is prepared, and belongs to the chat.
unfoldable pub is_prepared : Checkpoint → Text → Bool
is_prepared c chat =
    c.size == (if is_some c.recovery then 4 else 3)
    && text_eq c.phase prepared
    && is_some c.checkpoint_id
    && elim c.chat [ none ↦ false | some owner ↦ holds owner chat ]

-- One row: the event of the id, and nothing else.
unfoldable pub is_row : List (Text × List Text) → Text → Bool
is_row ((id, name ∷ value ∷ []) ∷ []) event = text_eq name (text "event") && text_eq value event
is_row _ event = false

unfoldable pub is_pending : List Text → Text → Bool
is_pending (id ∷ []) expected = text_eq id expected
is_pending _ expected = false

-- The recovery binding names this event, this session and a file generation.
unfoldable pub is_bound : Recovery → Text → Event → Binding → Bool
unfolding same_binding valid_generation
is_bound r event e session =
    r.size == 6
    && r.version == 1
    && holds r.event_id event
    && holds r.event_fingerprint e.fp
    && holds r.stream_id e.id
    && same_binding r.session session
    && valid_generation r.generation

-- The recovery binding, or without one the intent: `@generate` asks for a new one.
judge : Evidence → Text → Proof
judge v intent = elim v.prepared.recovery [
  | some r ↦ if is_bound r v.event v.entry v.binding then proved v else refused unsafe
  | none ↦ if is_empty intent then refused intent_required else proved v
]

module _ {S : Type 0} where
  -- The next event, in the stream and pending.
  next_evidence : StreamReads S → Store S → Text → Text → Binding → Text → Checkpoint → Text → Proof
  next_evidence reads s group session binding raw p intent =
      let next = inc (or_zero s.state.cursor) in
      elim (lookup next s.seqs) [
        | none ↦ refused unsafe
        | some event ↦ elim (lookup event s.events) [
          | none ↦ refused unsafe
          | some e ↦
              if not (text_eq e.seq next)
                || not (is_row (reads.xrange s.stream e.id) event)
                || not (is_pending (reads.xpending s.stream group e.id) e.id)
              then refused unsafe
              else judge
                  (record {
                    event = event;
                    entry = e;
                    session = session;
                    binding = binding;
                    raw = raw;
                    prepared = p;
                  })
                  intent
        ]
      ]

  -- The session is decoded under `pcall`.
  session_evidence :
      Decoder → StreamReads S → Store S → Text → Text → Text → Checkpoint → Text → Proof
  unfolding next_evidence judge
  session_evidence d reads s chat group raw p intent = elim s.state.session [
    | none ↦ refused unsafe
    | some session ↦ elim (d.binding session) [
      | none ↦ refused unsafe
      | some b ↦
          if not (b.size == 3) || not (holds b.canonical_chat_id chat)
          then refused unsafe
          else next_evidence reads s group session b raw p intent
    ]
  ]

  unfoldable pub repair_evidence : Decoder → StreamReads S → Store S → Text → Text → Text → Proof
  unfolding session_evidence
  repair_evidence d reads s chat group intent =
      if not (exists s.state)
        || not (holds s.state.chat chat)
        || not (is_compaction_failed s.state.pause)
      then refused ineligible
      else elim s.checkpoint [
        | none ↦ refused ineligible
        | some raw ↦ elim (d.checkpoint raw) [
          | none ↦ crashed
          | some p ↦
              if not (is_prepared p chat)
              then refused ineligible
              else if is_some s.state.turn_event || not (is_empty s.tools)
              then refused unsafe
              else session_evidence d reads s chat group raw p intent
        ]
      ]

pub record RepairArgs : Type 0 where
  pub app_owner : Text
  pub app_epoch : Text
  pub chat_owner : Text
  pub lease_ms : ℕ
  pub group : Text
  pub chat : Text

abbrev pub drop_lease : Lease → Lease
drop_lease l = record l { owner = none; deadline = none; event = none; repair_intent = none }

abbrev with_intent : Lease → Option Text → Lease
with_intent l intent = record l { repair_intent = intent }

module _ {S : Type 0} where
  -- The lease for a proved repair; an intent stays on it only where the record is not bound.
  unfoldable pub repair_grant : Store S → ℕ → RepairArgs → Evidence → Option Text → Store S × Reply
  repair_grant s now a v intent =
      let epoch = inc (or_zero s.lease.epoch) in
      if ltb 32 (length epoch)
      then (s, lost)
      else let t = grant s now a.app_owner a.app_epoch a.chat_owner epoch v.event a.lease_ms in
        (
          barrier (record t { lease = with_intent t.lease intent }),
          repair_claimed v.entry.id v.entry.raw v.session v.raw (some epoch) (now + a.lease_ms),
        )

  abbrev on_proof : Store S → Proof → (Evidence → Store S × Reply) → Store S × Reply
  on_proof s p k = elim p [ proved v ↦ k v | refused r ↦ (s, r) | crashed ↦ (s, store_unavailable) ]

  unfoldable pub repair_intent :
      Decoder → StreamReads S → Store S → ℕ → RepairArgs → Store S × Reply
  repair_intent d reads s now a =
      if not (app_alive s now a.app_owner a.app_epoch)
      then (s, lost)
      else if chat_busy s now a.app_owner a.app_epoch
      then (s, busy)
      else on_proof s (repair_evidence d reads s a.chat a.group (text "@generate"))
          λ v. if is_some v.prepared.recovery then (s, ineligible) else repair_grant s now a v none

  unfoldable pub repair_claim :
      Decoder → StreamReads S → Store S → ℕ → RepairArgs → Text → Store S × Reply
  repair_claim d reads s now a intent =
      if not (app_alive s now a.app_owner a.app_epoch)
      then (s, lost)
      else if chat_busy s now a.app_owner a.app_epoch
      then (s, busy)
      else on_proof s (repair_evidence d reads s a.chat a.group intent)
          λ v. repair_grant s now a v (if is_some v.prepared.recovery then none else some intent)

  -- The owner gives its lease back, also after its time.
  unfoldable pub repair_release_fence : Store S → ℕ → Fence → Store S × Reply
  repair_release_fence s now f =
      if not (app_alive s now f.app_owner f.app_epoch)
        || not (holds s.lease.owner f.chat_owner)
        || not (holds s.lease.epoch f.chat_epoch)
        || not (holds s.lease.app_owner f.app_owner)
        || not (holds s.lease.app_epoch f.app_epoch)
      then (s, lost)
      else (barrier (record s { lease = drop_lease s.lease }), ok)

  -- `ARGV[9]` is the binding that the caller expects.
  unfoldable pub repair_release : Decoder → Store S → ℕ → Work → Text → Store S × Reply
  repair_release d s now w expected = on_work s now w λ _. elim (d.binding expected) [
    | none ↦ (s, store_unavailable)
    | some b ↦ elim s.state.session [
      | none ↦ (s, lost)
      | some raw ↦ elim (d.binding raw) [
        | none ↦ (s, store_unavailable)
        | some c ↦
            if not (same_binding b c)
            then (s, lost)
            else (barrier (record s { lease = drop_lease s.lease }), ok)
      ]
    ]
  ]
