-- ===== src/Redis/Turn.antt =====
-- The operations of redis/scripts.ts on claimed work, each behind `work()`.
use whats_app_mcp_server.Base.{
  ℕ, ◌+◌, Bool, not, ◌&&◌, ◌||◌, Option, none, some, List, [], if◌then◌else◌, any, all, Text, holds,
  remove, values, is_some,
}
use whats_app_mcp_server.Redis.Decimal.{inc}
use whats_app_mcp_server.Redis.Store.{
  PauseReason, ToolRecord, mutation_of, foreign, is_confirmed, Event, Store, Lease, or_zero, Reply,
  ok, lost, started, renewed, current, turn, Work, work, barrier, with_state, set_pause,
}

module _ {S : Type 0} where
  -- `if not work() then return {'lost'} end`.
  abbrev pub on_work : Store S → ℕ → Work → (Event → Store S × Reply) → Store S × Reply
  on_work s now w k = elim (work s now w) [ none ↦ (s, lost) | some e ↦ k e ]

  unfoldable pub check_work : Store S → ℕ → Work → Store S × Reply
  check_work s now w = on_work s now w λ _. (barrier s, current s.app.deadline s.lease.deadline)

  unfoldable pub turn_state : Store S → ℕ → Work → Store S × Reply
  turn_state s now w = on_work s now w λ _. (s, turn s.state.turn_event)

  unfoldable pub begin_turn : Store S → ℕ → Work → Store S × Reply
  begin_turn s now w = on_work s now w λ _.
      if is_some s.state.turn_event
      then (s, started)
      else (barrier (with_state s (record (s.state) { turn_event = some w.event })), ok)

  unfoldable pub renew : Store S → ℕ → Work → ℕ → Store S × Reply
  renew s now w ms = on_work s now w λ _. (
    barrier (record s { lease = record (s.lease) { deadline = some (now + ms) } }),
    renewed s.lease.epoch (now + ms),
  )

  unfoldable pub pause : Store S → ℕ → Work → PauseReason → Store S × Reply
  pause s now w reason = on_work s now w λ _. (barrier (set_pause s reason), ok)

  unfoldable pub bind : Store S → ℕ → Work → Text → Store S × Reply
  bind s now w session = on_work s now w λ _.
      if is_some s.state.session && not (holds s.state.session session)
      then (s, lost)
      else (barrier (with_state s (record (s.state) { session = some session })), ok)

abbrev leave : Lease → Lease
leave l = record l { owner = none; deadline = none; event = none }

-- A confirmed send of the completion marker.
pub record Sent : Type 0 where
  pub destination : Text
  pub message_id : Text

abbrev pub is_sent : Sent → Text → Option Text → Bool
is_sent x destination message_id =
    holds (some x.destination) destination && holds message_id x.message_id

-- A journal record is settled by the marker: confirmed, of this event, and among the sends.
unfoldable pub settled : Work → List Sent → ToolRecord → Bool
settled w sends r =
    let t = mutation_of r in
    is_confirmed t.status
    && holds (some t.event_id) w.event
    && not (foreign r w.fingerprint)
    && any (λ x. is_sent x t.destination t.message_id) sends

module _ {S : Type 0} where
  -- The writes of a completion: the cursor moves to the event, and its keys go.
  unfoldable pub finish :
      (S → Text → Text → S) → (S → Text → S) → Store S → Work → Text → Event → Store S
  finish xack xdel s w group e = barrier (record s {
    app = record (s.app) { identity_revision = some (inc (or_zero s.app.identity_revision)) };
    state = record (s.state) {
      cursor = some e.seq;
      revision = some (inc (or_zero s.state.revision));
      turn_event = none;
    };
    lease = leave s.lease;
    stream = xdel (xack s.stream group e.id) e.id;
    events = remove w.event s.events;
    seqs = remove e.seq s.seqs;
    tools = [];
    identities = remove w.event s.identities;
  })

  unfoldable pub complete :
      (S → Text → Text → S)
      → (S → Text → S)
      → Store S
      → ℕ
      → Work
      → Text
      → Text
      → List Sent
      → Store S × Reply
  complete xack xdel s now w session group sends = on_work s now w λ e.
      if not (holds (some e.seq) (inc (or_zero s.state.cursor)))
        || not (holds s.state.session session)
      then (s, lost)
      else if not (all (settled w sends) (values s.tools))
      then (s, lost)
      else (finish xack xdel s w group e, ok)
