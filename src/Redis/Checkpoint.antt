-- ===== src/Redis/Checkpoint.antt =====
-- `checkpoint-prepare`, `checkpoint-transition`, `checkpoint-abort` and `checkpoint-latest` of
-- redis/scripts.ts. The record stands in Redis as its JSON text, and is compared as that text.
use whats_app_mcp_server.Base.{
  ℕ, Bool, not, ◌&&◌, ◌||◌, Option, none, some, ◌==◌, if◌then◌else◌, is_empty, Text, text_eq, holds,
  is_some,
}
use whats_app_mcp_server.Redis.Store.{
  Event, Store, Reply, ok, lost, store_unavailable, latest, Work, barrier,
}
use whats_app_mcp_server.Redis.Turn.{on_work}
use whats_app_mcp_server.Redis.Documents.{
  Binding, Recovery, Checkpoint, Decoder, same, lua_eq, same_binding, valid_generation, prepared,
  compacted, restored, aborted,
}
use whats_app_mcp_server.Redis.Repair.{
  StreamReads, Evidence, proved, refused, crashed, repair_evidence, drop_lease,
}

pub record TransitionArgs : Type 0 where
  pub checkpoint_id : Text
  -- The text of the new phase.
  pub phase : Text
  pub entry_id : Text
  pub expected : Text
  pub next : Text

pub record AbortArgs : Type 0 where
  pub session : Text
  pub checkpoint_id : Text
  pub expected : Text
  pub next : Text
  pub intent : Text
  pub group : Text

-- The recovery binding of a new record names this work, this session and a file generation.
unfoldable pub binds_work : Recovery → Work → Event → Binding → Bool
binds_work r w e session =
    r.size == 6
    && r.version == 1
    && holds r.event_id w.event
    && holds r.event_fingerprint w.fingerprint
    && holds r.stream_id w.stream_id
    && valid_generation r.generation
    && same_binding r.session session
    && holds r.event_fingerprint e.fp
    && holds r.stream_id e.id

-- `compacted` wants `prepared`; `restored` wants `compacted` by the same entry.
unfoldable pub bad_transition : Checkpoint → TransitionArgs → Bool
bad_transition t a =
    text_eq a.phase compacted && not (text_eq t.phase prepared)
    || text_eq a.phase restored
      && (not (text_eq t.phase compacted) || not (holds t.compaction_entry_id a.entry_id))

-- The record that is put back is the proved one, aborted and with no compaction.
unfoldable pub aborts : Checkpoint → Checkpoint → Text → Bool
aborts t n checkpoint_id =
    text_eq t.phase prepared
    && holds t.checkpoint_id checkpoint_id
    && text_eq n.phase aborted
    && holds n.checkpoint_id checkpoint_id
    && not (is_some n.compaction_entry_id)

-- A decoded value, or the error of `cjson.decode`.
abbrev on_json : {S A : Type 0} → Store S → Option A → (A → Store S × Reply) → Store S × Reply
on_json s o k = elim o [ none ↦ (s, store_unavailable) | some a ↦ k a ]

module _ {S : Type 0} where
  unfoldable pub put_checkpoint : Store S → Text → Store S × Reply
  put_checkpoint s raw = (barrier (record s { checkpoint = some raw }), ok)

  -- The new record may replace itself, or one that is over.
  unfoldable pub replace : Decoder → Store S → Checkpoint → Text → Store S × Reply
  replace d s t raw = elim s.checkpoint [
    | none ↦ put_checkpoint s raw
    | some old ↦ on_json s (d.checkpoint old) λ p.
        if (if lua_eq p.checkpoint_id t.checkpoint_id
          then not (text_eq old raw)
          else not (text_eq p.phase restored) && not (text_eq p.phase aborted))
        then (s, lost)
        else put_checkpoint s raw
  ]

  prepare_record :
      Decoder → Store S → Work → Event → Text → Checkpoint → Binding → Binding → Store S × Reply
  prepare_record d s w e raw t supplied session = elim t.chat [
    | none ↦ (s, store_unavailable)
    | some chat ↦ elim t.recovery [
      | none ↦ (s, lost)
      | some r ↦
          if not (same s.state.chat chat)
            || not (same_binding supplied session)
            || not (binds_work r w e session)
          then (s, lost)
          else replace d s t raw
    ]
  ]

  unfoldable pub checkpoint_prepare : Decoder → Store S → ℕ → Work → Text → Text → Store S × Reply
  unfolding prepare_record
  checkpoint_prepare d s now w raw supplied = on_work s now w λ e. on_json s (d.checkpoint raw) λ t.
      on_json s (d.binding supplied) λ b. elim s.state.session [
        | none ↦ (s, lost)
        | some session ↦ on_json s (d.binding session) λ c. prepare_record d s w e raw t b c
      ]

  unfoldable pub checkpoint_transition :
      Decoder → Store S → ℕ → Work → TransitionArgs → Store S × Reply
  checkpoint_transition d s now w a = on_work s now w λ _. elim s.checkpoint [
    | none ↦ (s, lost)
    | some raw ↦ on_json s (d.checkpoint raw) λ t.
        if not (holds t.checkpoint_id a.checkpoint_id)
          || bad_transition t a
          || not (text_eq raw a.expected)
        then (s, lost)
        else put_checkpoint s a.next
  ]

  abort_proved : Decoder → Store S → Work → AbortArgs → Binding → Evidence → Store S × Reply
  abort_proved d s w a expected v =
      if not (text_eq v.event w.event)
        || not (text_eq v.entry.id w.stream_id)
        || not (text_eq v.entry.fp w.fingerprint)
        || not (same_binding expected v.binding)
        || not (text_eq v.raw a.expected)
      then (s, lost)
      else on_json s (d.checkpoint a.next) λ n.
        if not (aborts v.prepared n a.checkpoint_id)
        then (s, lost)
        else if not (is_some v.prepared.recovery)
            && (is_empty a.intent || not (holds s.lease.repair_intent a.intent))
        then (s, lost)
        else (
          barrier (record s {
            checkpoint = some a.next;
            state = record (s.state) { pause = none };
            lease = drop_lease s.lease;
          }),
          ok,
        )

  unfoldable pub checkpoint_abort :
      Decoder → StreamReads S → Store S → ℕ → Work → AbortArgs → Store S × Reply
  unfolding abort_proved
  checkpoint_abort d reads s now w a = on_work s now w λ _. on_json s (d.binding a.session) λ b.
      elim b.canonical_chat_id [
        | none ↦ (s, lost)
        | some chat ↦ elim (repair_evidence d reads s chat a.group a.intent) [
          | proved v ↦ abort_proved d s w a b v
          | refused r ↦ (s, lost)
          | crashed ↦ (s, store_unavailable)
        ]
      ]

  unfoldable pub checkpoint_latest : Store S → Store S × Reply
  checkpoint_latest s = (s, latest s.checkpoint)
