-- ===== src/Domain/Mutations.antt =====
-- domain.ts: the states of a mutating tool call and the journal's records of them, with their schemas.
use whats_app_mcp_server.Base.{
  Bool, true, false, Option, none, some, List, [], ◌∷◌, if◌then◌else◌, Text, text, text_eq,
}
use whats_app_mcp_server.Json.{Json, Members, ◌>>=◌, ◌>>◌, guard, at, as_object, as_text}
use whats_app_mcp_server.Domain.Patterns.{is_opaque_id, is_chat_jid}
use whats_app_mcp_server.Domain.Schemas.{
  closed_object, text_field, first_version, within, is_message_id, is_fingerprint, binding_of,
  ownership_of,
}
use whats_app_mcp_server.Intake.Payload.{includes}
use whats_app_mcp_server.Intake.Timestamp.{is_timestamp}
use whats_app_mcp_server.Scheduler.Work.{Ownership, SessionBinding}

-- The fields beyond the common ones, by `status`.
pub data Progress : Type 0 where
  attempting uncertain : Progress
  confirmed : Text → Text → Progress

pub record MutationState : Type 0 where
  pub attempt_id : Text
  pub event_id : Text
  pub canonical_chat_id : Text
  pub tool_call_id : Text
  pub tool : Text
  pub destination : Text
  pub started_at : Text
  pub ownership : Ownership
  pub progress : Progress

-- `MutationToolSchema`.
abbrev pub mutation_tools : List Text
mutation_tools =
    text "send_message"
    ∷ text "send_group_message"
    ∷ text "send_auto_message"
    ∷ text "send_media"
    ∷ text "send_reaction"
    ∷ text "edit_message"
    ∷ text "revoke_message"
    ∷ []

-- `mutationFields`.
abbrev common_fields : List Text
common_fields =
    text "version"
    ∷ text "attemptId"
    ∷ text "eventId"
    ∷ text "canonicalChatId"
    ∷ text "toolCallId"
    ∷ text "tool"
    ∷ text "destination"
    ∷ text "startedAt"
    ∷ text "ownership"
    ∷ text "status"
    ∷ []

-- The three members of the union: the status, and the keys and values that go with it.
abbrev confirmed_progress : Members → Option Progress
confirmed_progress ms = do
  guard (closed_object (text "messageId" ∷ text "finishedAt" ∷ common_fields) ms)
  id ← text_field is_message_id (text "messageId") ms
  finished ← text_field is_timestamp (text "finishedAt") ms
  some (confirmed id finished)

abbrev uncertain_progress : Members → Option Progress
uncertain_progress ms = do
  guard (closed_object (text "reason" ∷ common_fields) ms)
  reason ← text_field (text_eq (text "mutation_uncertain")) (text "reason") ms
  some uncertain

unfoldable pub progress_of : Text → Members → Option Progress
unfolding closed_object text_field
progress_of status ms =
    if text_eq status (text "attempting")
    then (if closed_object common_fields ms then some attempting else none)
    else if text_eq status (text "confirmed")
    then confirmed_progress ms
    else if text_eq status (text "uncertain")
    then uncertain_progress ms
    else none

-- `MutationStateSchema`.
unfoldable pub mutation_state_of : Option Json → Option MutationState
unfolding text_field
mutation_state_of v = do
  ms ← as_object v
  status ← as_text (at (text "status") ms)
  progress ← progress_of status ms
  one ← first_version ms
  attempt ← text_field is_opaque_id (text "attemptId") ms
  event ← text_field is_opaque_id (text "eventId") ms
  chat ← text_field is_chat_jid (text "canonicalChatId") ms
  call ← text_field (within 1 512) (text "toolCallId") ms
  tool ← text_field (includes mutation_tools) (text "tool") ms
  to ← text_field is_chat_jid (text "destination") ms
  started ← text_field is_timestamp (text "startedAt") ms
  ownership ← ownership_of (at (text "ownership") ms)
  some (record {
    attempt_id = attempt;
    event_id = event;
    canonical_chat_id = chat;
    tool_call_id = call;
    tool = tool;
    destination = to;
    started_at = started;
    ownership = ownership;
    progress = progress;
  })

-- `JournalRecord` of pi/tool-journal-extension.ts.
pub record JournalRecord : Type 0 where
  pub event_fingerprint : Text
  pub session : SessionBinding
  pub state : MutationState

-- `JournalRecordSchema` of compaction/checkpoint.ts, and the same in compaction/orphan-recovery.ts.
unfoldable pub journal_record_of : Option Json → Option JournalRecord
unfolding closed_object text_field
journal_record_of v = do
  ms ← as_object v
  guard (
      closed_object (text "version" ∷ text "eventFingerprint" ∷ text "session" ∷ text "state" ∷ [])
        ms)
  one ← first_version ms
  fp ← text_field is_fingerprint (text "eventFingerprint") ms
  session ← binding_of (at (text "session") ms)
  state ← mutation_state_of (at (text "state") ms)
  some (record { event_fingerprint = fp; session = session; state = state })

-- `status === 'attempting'` and `status === 'confirmed'`.
abbrev pub is_attempting : Progress → Bool
is_attempting attempting = true
is_attempting _ = false

abbrev pub is_confirmed : Progress → Bool
is_confirmed (confirmed id at) = true
is_confirmed _ = false

abbrev pub message_of : Progress → Option Text
message_of (confirmed id at) = some id
message_of _ = none
