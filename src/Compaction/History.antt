-- ===== src/Compaction/History.antt =====
-- `confirmedHistory` of compaction/checkpoint.ts: the confirmed tool outcomes that the entries of the
-- active branch prove.
use whats_app_mcp_server.Base.{
  ℕ, ◌+◌, Bool, true, false, not, ◌&&◌, Option, none, some, List, [], ◌∷◌, if◌then◌else◌, leb,
  length, all, Text, text, text_eq, holds, ◌==◌, Dict, lookup, insert, values,
}
use whats_app_mcp_server.Json.{Json, Members, at, as_object, as_text, ◌>>=◌, ◌>>◌, guard}
use whats_app_mcp_server.Domain.Patterns.{max_safe}
use whats_app_mcp_server.Domain.Schemas.{binding_of, marker_of, has_send}
use whats_app_mcp_server.Domain.Mutations.{
  MutationState, JournalRecord, journal_record_of, is_attempting, is_confirmed, message_of,
}
use whats_app_mcp_server.Domain.Checkpoints.{CheckpointV1, ToolOutcome}
use whats_app_mcp_server.Intake.Payload.{includes}
use whats_app_mcp_server.Scheduler.Work.{
  SessionBinding, is_bound, same_binding, CompletionMarker, Send, Fence,
}
use whats_app_mcp_server.Session.Paths.{is_binding}
use whats_app_mcp_server.Session.Log.{
  types, binding_type, completion_type, mutation_type, starts_with,
}

-- An entry of the session, as the agent's library gives it.
pub record SessionEntry : Type 0 where
  pub kind : Text
  pub custom_type : Option Text
  pub payload : Option Json

-- `assertSupportedEntries`, on raw entries.
abbrev has_type : Option Members → Bool
has_type none = false
has_type (some e) = elim (as_text (at (text "type") e)) [ none ↦ false | some t ↦ includes types t ]

unfoldable pub are_supported : List Json → Bool
are_supported vs = all (λ v. has_type (as_object (some v))) vs

-- The variables of the function.
pub record History : Type 0 where
  pub bound : Bool
  pub transitions : Dict JournalRecord
  pub completed_events : List Text
  pub outcomes : Dict ToolOutcome

abbrev pub same_fence : Fence → Fence → Bool
same_fence a b = text_eq a.owner b.owner && text_eq a.epoch b.epoch && a.expires_at == b.expires_at

-- `sameMutation`: the fields that do not change.
unfoldable pub same_mutation : MutationState → MutationState → Bool
same_mutation a b =
    text_eq a.attempt_id b.attempt_id
    && text_eq a.event_id b.event_id
    && text_eq a.canonical_chat_id b.canonical_chat_id
    && text_eq a.tool_call_id b.tool_call_id
    && text_eq a.tool b.tool
    && text_eq a.destination b.destination
    && text_eq a.started_at b.started_at
    && same_fence a.ownership.app b.ownership.app
    && same_fence a.ownership.chat b.ownership.chat

unfoldable pub same_outcome : ToolOutcome → ToolOutcome → Bool
same_outcome a b =
    text_eq a.attempt_id b.attempt_id
    && text_eq a.tool b.tool
    && text_eq a.destination b.destination
    && text_eq a.message_id b.message_id

-- `add`.
abbrev pub agrees : Option ToolOutcome → ToolOutcome → Bool
agrees none o = true
agrees (some p) o = same_outcome p o

unfoldable pub add : ToolOutcome → Dict ToolOutcome → Option (Dict ToolOutcome)
unfolding same_outcome
add o os =
    if agrees (lookup o.attempt_id os) o && leb (length (insert o.attempt_id o os)) 256
    then some (insert o.attempt_id o os)
    else none

unfoldable pub add_all : List ToolOutcome → Dict ToolOutcome → Option (Dict ToolOutcome)
add_all [] os = some os
add_all (o ∷ rest) os = add o os >>= λ next. add_all rest next

-- The order of the states of one attempt: a first record is an attempt, a second confirms it.
abbrev pub follows : Option JournalRecord → JournalRecord → Bool
follows none r = is_attempting r.state.progress
follows (some p) r =
    is_attempting p.state.progress
    && is_confirmed r.state.progress
    && text_eq p.event_fingerprint r.event_fingerprint
    && same_mutation p.state r.state

-- The outcome of a confirmed call.
abbrev pub outcome_in : Text → MutationState → Text → ToolOutcome
outcome_in attempt t id = record {
  attempt_id = attempt;
  tool = t.tool;
  destination = t.destination;
  message_id = id;
}

abbrev pub sent_as : JournalRecord → CompletionMarker → Option Text → Option Text
sent_as r m none = none
sent_as r m (some id) =
    if text_eq r.event_fingerprint m.event_fingerprint
      && has_send m.confirmed_sends (record { destination = r.state.destination; message_id = id })
    then some id
    else none

-- The loop over the records at a marker: those of its event are added.
unfoldable pub settle_records :
    CompletionMarker → Dict JournalRecord → Dict ToolOutcome → Option (Dict ToolOutcome)
settle_records m [] os = some os
settle_records m ((k, r) ∷ rs) os = elim (text_eq r.state.event_id m.event_id) [
  | false ↦ settle_records m rs os
  | true ↦ sent_as r m (message_of r.state.progress) >>= λ id.
      add (outcome_in k r.state id) os >>= λ next. settle_records m rs next
]

-- `matches.length`.
abbrev matches_send : CompletionMarker → Send → JournalRecord → Bool
matches_send m s r =
    text_eq r.state.event_id m.event_id
    && text_eq r.state.destination s.destination
    && holds (message_of r.state.progress) s.message_id

unfoldable pub count_matches : CompletionMarker → Send → List JournalRecord → ℕ
count_matches m s [] = 0
count_matches m s (r ∷ rs) = (if matches_send m s r then 1 else 0) + count_matches m s rs

abbrev pub with_completed : CompletionMarker → History → Dict ToolOutcome → Option History
with_completed m h os =
    some (record h { outcomes = os; completed_events = m.event_id ∷ h.completed_events })

module _ (b : SessionBinding) (last : ℕ) where
  unfoldable pub take_record : JournalRecord → History → Option History
  unfolding same_mutation
  take_record r h =
      if h.bound
        && same_binding r.session b
        && text_eq r.state.canonical_chat_id b.canonical_chat_id
        && not (includes h.completed_events r.state.event_id)
        && follows (lookup r.state.attempt_id h.transitions) r
      then some (record h { transitions = insert r.state.attempt_id r h.transitions })
      else none

  unfoldable pub take_marker : CompletionMarker → History → Option History
  unfolding settle_records add count_matches
  take_marker m h =
      if h.bound
        && text_eq m.canonical_chat_id b.canonical_chat_id
        && leb m.chat_sequence last
        && not (includes h.completed_events m.event_id)
        && all (λ s. count_matches m s (values h.transitions) == 1) m.confirmed_sends
      then (settle_records m h.transitions h.outcomes >>= with_completed m h)
      else none

  -- `isDeepStrictEqual(entry.data, exactBinding)`: a value equal to a binding has the schema's form.
  unfoldable pub take_binding : Option SessionBinding → History → Option History
  take_binding c h = if not h.bound && is_bound c b then some (record h { bound = true }) else none

  unfoldable pub take_custom : Text → Option Json → History → Option History
  take_custom kind v h =
      if text_eq kind binding_type
      then take_binding (binding_of v) h
      else if text_eq kind mutation_type
      then (journal_record_of v >>= λ r. take_record r h)
      else if text_eq kind completion_type
      then (marker_of v >>= λ m. take_marker m h)
      else if starts_with (text "whatsapp.controller.") kind
      then none
      else some h

  abbrev pub take_named : Option Text → Option Json → History → Option History
  take_named none v h = some h
  take_named (some kind) v h = take_custom kind v h

  unfoldable pub take_entry : SessionEntry → History → Option History
  take_entry e h =
      if not (includes types e.kind)
      then none
      else if not (text_eq e.kind (text "custom"))
      then some h
      else take_named e.custom_type e.payload h

  unfoldable pub take_entries : List SessionEntry → History → Option History
  take_entries [] h = some h
  take_entries (e ∷ es) h = take_entry e h >>= λ next. take_entries es next

-- The checkpoint that is there already: of the chat, and not of a later event.
abbrev pub known_outcomes : SessionBinding → ℕ → Option CheckpointV1 → Option (Dict ToolOutcome)
known_outcomes b last none = some []
known_outcomes b last (some c) =
    if text_eq c.canonical_chat_id b.canonical_chat_id && leb c.last_completed_sequence last
    then add_all c.confirmed_tool_outcomes []
    else none

-- At the end every call is confirmed and its event completed.
unfoldable pub is_settled : History → Bool
is_settled h =
    h.bound
    && all (λ r. is_confirmed r.state.progress && includes h.completed_events r.state.event_id)
        (values h.transitions)

-- `sort` by `localeCompare`, which is `before`.
unfoldable pub insert_sorted :
    (Text → Text → Bool) → ToolOutcome → List ToolOutcome → List ToolOutcome
insert_sorted before o [] = o ∷ []
insert_sorted before o (p ∷ ps) =
    let rest = insert_sorted before o ps in
    if before p.attempt_id o.attempt_id then p ∷ rest else o ∷ p ∷ ps

unfoldable pub sort_outcomes : (Text → Text → Bool) → List ToolOutcome → List ToolOutcome
unfolding insert_sorted
sort_outcomes before [] = []
sort_outcomes before (o ∷ os) = insert_sorted before o (sort_outcomes before os)

unfoldable pub confirmed_history :
    (Text → Text → Bool)
    → List SessionEntry
    → SessionBinding
    → ℕ
    → Option CheckpointV1
    → Option (List ToolOutcome)
unfolding add_all is_settled
confirmed_history before entries b last current = do
  guard (leb last max_safe && leb (length entries) 4096 && is_binding b)
  known ← known_outcomes b last current
  h ←
      take_entries b last entries
        (record { bound = false; transitions = []; completed_events = []; outcomes = known })
  guard (is_settled h)
  some (sort_outcomes before (values h.outcomes))
