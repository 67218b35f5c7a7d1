-- ===== src/Domain/Checkpoints.antt =====
-- domain.ts: `CheckpointV1Schema`, `SessionFileGenerationSchema` and their values.
use whats_app_mcp_server.Base.{
  ℕ, Bool, ◌&&◌, ◌||◌, Option, some, List, [], ◌∷◌, leb, length, all, Text, text, text_eq, ◌==◌,
}
use whats_app_mcp_server.Json.{
  Json, Items, nil, cons, Members, ◌>>=◌, ◌>>◌, guard, at, as_object, as_text, as_array,
}
use whats_app_mcp_server.Domain.Patterns.{is_opaque_id, is_chat_jid, is_digit}
use whats_app_mcp_server.Domain.Schemas.{
  closed_object, text_field, whole_field, first_version, within, is_counter, is_message_id,
}
use whats_app_mcp_server.Domain.Mutations.{mutation_tools}
use whats_app_mcp_server.Intake.Payload.{includes}
use whats_app_mcp_server.Intake.Timestamp.{is_timestamp}

pub record ToolOutcome : Type 0 where
  pub attempt_id : Text
  pub tool : Text
  pub destination : Text
  pub message_id : Text

pub record CheckpointV1 : Type 0 where
  pub canonical_chat_id : Text
  pub last_completed_sequence : ℕ
  pub policy_version : Text
  pub template_version : Text
  pub created_at : Text
  pub goals : List Text
  pub decisions : List Text
  pub constraints : List Text
  pub verified_facts : List Text
  pub pending_work : List Text
  pub approval_boundaries : List Text
  pub next_steps : List Text
  pub confirmed_tool_outcomes : List ToolOutcome

-- `VersionSchema`.
abbrev is_version_char : ℕ → Bool
is_version_char c =
    leb b'A' c && leb c b'Z'
    || leb b'a' c && leb c b'z'
    || is_digit c
    || c == b'.'
    || c == b'_'
    || c == b'-'

unfoldable pub is_version : Text → Bool
is_version t = all is_version_char t && within 1 64 t

-- `notes()`.
unfoldable pub notes_of : Items → Option (List Text)
notes_of nil = some []
notes_of (cons x xs) = do
  t ← as_text (some x)
  guard (within 1 2048 t)
  ts ← notes_of xs
  some (t ∷ ts)

unfoldable pub note_field : Text → Members → Option (List Text)
note_field key ms = do
  xs ← as_array (at key ms)
  ts ← notes_of xs
  guard (leb (length ts) 64)
  some ts

unfoldable pub outcome_of : Option Json → Option ToolOutcome
unfolding closed_object text_field
outcome_of v = do
  ms ← as_object v
  guard (
      closed_object (text "attemptId" ∷ text "tool" ∷ text "destination" ∷ text "messageId" ∷ [])
        ms)
  attempt ← text_field is_opaque_id (text "attemptId") ms
  tool ← text_field (includes mutation_tools) (text "tool") ms
  to ← text_field is_chat_jid (text "destination") ms
  id ← text_field is_message_id (text "messageId") ms
  some (record { attempt_id = attempt; tool = tool; destination = to; message_id = id })

unfoldable pub outcomes_of : Items → Option (List ToolOutcome)
outcomes_of nil = some []
outcomes_of (cons x xs) = do o ← outcome_of (some x); os ← outcomes_of xs; some (o ∷ os)

abbrev checkpoint_fields : List Text
checkpoint_fields =
    text "version"
    ∷ text "canonicalChatId"
    ∷ text "lastCompletedSequence"
    ∷ text "policyVersion"
    ∷ text "templateVersion"
    ∷ text "createdAt"
    ∷ text "goals"
    ∷ text "decisions"
    ∷ text "constraints"
    ∷ text "verifiedFacts"
    ∷ text "pendingWork"
    ∷ text "approvalBoundaries"
    ∷ text "nextSteps"
    ∷ text "confirmedToolOutcomes"
    ∷ []

-- `CheckpointV1Schema`.
unfoldable pub checkpoint_of : Option Json → Option CheckpointV1
unfolding closed_object text_field whole_field note_field
checkpoint_of v = do
  ms ← as_object v
  guard (closed_object checkpoint_fields ms)
  one ← first_version ms
  chat ← text_field is_chat_jid (text "canonicalChatId") ms
  last ← whole_field is_counter (text "lastCompletedSequence") ms
  policy ← text_field is_version (text "policyVersion") ms
  template ← text_field is_version (text "templateVersion") ms
  created ← text_field is_timestamp (text "createdAt") ms
  goals ← note_field (text "goals") ms
  decisions ← note_field (text "decisions") ms
  constraints ← note_field (text "constraints") ms
  facts ← note_field (text "verifiedFacts") ms
  work ← note_field (text "pendingWork") ms
  boundaries ← note_field (text "approvalBoundaries") ms
  steps ← note_field (text "nextSteps") ms
  items ← as_array (at (text "confirmedToolOutcomes") ms)
  outcomes ← outcomes_of items
  guard (leb (length outcomes) 256)
  some (record {
    canonical_chat_id = chat;
    last_completed_sequence = last;
    policy_version = policy;
    template_version = template;
    created_at = created;
    goals = goals;
    decisions = decisions;
    constraints = constraints;
    verified_facts = facts;
    pending_work = work;
    approval_boundaries = boundaries;
    next_steps = steps;
    confirmed_tool_outcomes = outcomes;
  })

-- `SessionFileGenerationSchema`.
pub record FileGeneration : Type 0 where
  pub device : Text
  pub inode : Text
  pub size : Text
  pub mtime_ns : Text
  pub ctime_ns : Text

-- `isDeepStrictEqual` of two generations.
unfoldable pub same_generation : FileGeneration → FileGeneration → Bool
same_generation a b =
    text_eq a.device b.device
    && text_eq a.inode b.inode
    && text_eq a.size b.size
    && text_eq a.mtime_ns b.mtime_ns
    && text_eq a.ctime_ns b.ctime_ns
