-- ===== src/Redis/Journal.antt =====
-- The journal of mutating tool calls in redis/scripts.ts: `journal-begin`, `native-journal-begin`,
-- `journal-transition` and `journal-list`.
use whats_app_mcp_server.Base.{
  ℕ, Bool, not, ◌&&◌, ◌||◌, none, some, if◌then◌else◌, any, Text, holds, lookup, insert, values,
  is_some,
}
use whats_app_mcp_server.Redis.Store.{
  confirmed, uncertain, mutation_uncertain, Mutation, ToolRecord, mutation_of, with_mutation,
  foreign, is_attempting, native, Store, Reply, ok, lost, journal, Work, barrier, set_pause,
}
use whats_app_mcp_server.Redis.Turn.{on_work}

-- The same tool call of the same event.
abbrev repeats : Text → Text → ToolRecord → Bool
repeats event call r =
    let prior = mutation_of r in
    holds (some prior.event_id) event && holds (some prior.tool_call_id) call

-- `ARGV[10]` of `journal-transition`.
pub data Transition : Type 0 where
  confirm : Text → Text → Transition
  give_up : Transition

module _ {S : Type 0} where
  abbrev put_tool : Store S → Text → ToolRecord → Store S
  put_tool s attempt r = record s { tools = insert attempt r s.tools }

  unfoldable pub journal_begin : Store S → ℕ → Work → Text → ToolRecord → Store S × Reply
  journal_begin s now w attempt r = on_work s now w λ _.
      if is_some (lookup attempt s.tools) then (s, lost) else (barrier (put_tool s attempt r), ok)

  -- The record is an envelope: `record.state` and `record.eventFingerprint` are there.
  unfoldable pub native_journal_begin :
      Store S → ℕ → Work → Text → Text → Mutation → Text → Store S × Reply
  native_journal_begin s now w attempt fp t session = on_work s now w λ _.
      if not (holds s.state.turn_event w.event) || not (holds s.state.session session)
      then (s, lost)
      else if not (holds (some fp) w.fingerprint)
          || not (holds (some t.event_id) w.event)
          || not (holds (some t.attempt_id) attempt)
          || not (is_attempting t.status)
      then (s, lost)
      else if is_some (lookup attempt s.tools)
      then (s, lost)
      else if any (repeats w.event t.tool_call_id) (values s.tools)
      then (s, lost)
      else (barrier (put_tool s attempt (native fp t)), ok)

  abbrev settle_as : Store S → Text → ToolRecord → Transition → Store S
  settle_as s attempt r (confirm message_id finished_at) = put_tool s attempt (
      with_mutation r (record (mutation_of r) {
        status = confirmed;
        message_id = some message_id;
        finished_at = some finished_at;
      }))
  settle_as s attempt r give_up =
      put_tool (set_pause s mutation_uncertain) attempt
        (with_mutation r (record (mutation_of r) { status = uncertain }))

  unfoldable pub journal_transition : Store S → ℕ → Work → Text → Transition → Store S × Reply
  journal_transition s now w attempt next = on_work s now w λ _. elim (lookup attempt s.tools) [
    | none ↦ (s, lost)
    | some r ↦
        let t = mutation_of r in
        if foreign r w.fingerprint
          || not (holds (some t.event_id) w.event)
          || not (is_attempting t.status)
        then (s, lost)
        else (barrier (settle_as s attempt r next), ok)
  ]

  unfoldable pub journal_list : Store S → Store S × Reply
  journal_list s = (s, journal (values s.tools))
