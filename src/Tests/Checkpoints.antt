-- ===== src/Tests/Checkpoints.antt =====
-- A checkpoint without notes, a branch with one sent message, and a session file that a prepared
-- compaction has left alone.
use whats_app_mcp_server.Base.{
  ◌≤◌, ◌≡◌, ◌⊎◌, ◌↔◌, refl, true, false, none, some, List, [], ◌∷◌, Text, text, text_eq, lookup,
  insert, values,
}
use whats_app_mcp_server.Base.Each.{Each}
use whats_app_mcp_server.Json.{
  Members, Json, object, member, end, string, number, whole, array, nil, cons, at, keys_of,
}
use whats_app_mcp_server.Domain.Schemas.{
  binding_of, marker_of, closed_object, text_field, whole_field, is_fingerprint, sends_of, send_of,
  completion_in, has_send, ownership_of, fence_of,
}
use whats_app_mcp_server.Domain.Patterns.{
  is_opaque_id, is_chat_jid, is_group_jid, is_jid, behind_digits,
}
use whats_app_mcp_server.Domain.Fingerprint.{decimal}
use whats_app_mcp_server.Domain.Mutations.{journal_record_of, mutation_state_of, progress_of}
use whats_app_mcp_server.Domain.Checkpoints.{
  CheckpointV1, ToolOutcome, checkpoint_of, notes_of, note_field, outcomes_of, is_version,
}
use whats_app_mcp_server.Intake.Timestamp.{scan, is_timestamp}
use whats_app_mcp_server.Intake.Payload.{includes, utf8_length}
use whats_app_mcp_server.Scheduler.Work.{same_binding, is_bound}
use whats_app_mcp_server.Session.Log.{mutation_type, completion_type, binding_type, starts_with}
use whats_app_mcp_server.Compaction.Sensitive.{
  contains_sensitive, contains_sensitive_iff, find_sensitive, push_items, push_values, weight,
  has_text,
}
use whats_app_mcp_server.Compaction.Checkpoint.{
  Texts, Identity, checkpoint_identity, same_identity, distinct_attempts, is_valid,
  validate_checkpoint, join_lines, summary_lines, render_checkpoint_summary,
}
use whats_app_mcp_server.Compaction.Summary.{Checked, render_checkpoint_summary-Checked}
use whats_app_mcp_server.Compaction.History.{
  SessionEntry, confirmed_history, take_entries, take_entry, take_custom, take_binding, take_record,
  take_marker, settle_records, add, same_outcome, same_mutation, count_matches, is_settled,
  sort_outcomes, insert_sorted,
}
use whats_app_mcp_server.Compaction.Backing.{Backed}
use whats_app_mcp_server.Compaction.Confirmed.{Carried, confirmed_history-Backed}
use whats_app_mcp_server.Tests.Sessions.{session, time, event, print, chat, bound_data}

abbrev checkpoint : Json
checkpoint = object (
    member (text "version") (number (whole 1)) (
      member (text "canonicalChatId") (string chat) (
        member (text "lastCompletedSequence") (number (whole 4)) (
          member (text "policyVersion") (string (text "p1")) (
            member (text "templateVersion") (string (text "t1")) (
              member (text "createdAt") time (
                member (text "goals") (array (cons (string (text "one goal")) nil)) (
                  member (text "decisions") (array nil) (
                    member (text "constraints") (array nil) (
                      member (text "verifiedFacts") (array nil) (
                        member (text "pendingWork") (array nil) (
                          member (text "approvalBoundaries") (array nil) (
                            member (text "nextSteps") (array nil)
                              (member (text "confirmedToolOutcomes") (array nil) end))))))))))))))

abbrev pub texts : Texts
texts = record { stringify = λ v. text "{}"; is_sensitive = λ t. text_eq t (text "secret") }

abbrev expected_identity : Identity
expected_identity = record {
  canonical_chat_id = chat;
  last_completed_sequence = 4;
  policy_version = text "p1";
  template_version = text "t1";
  created_at = text "2024-02-29T10:00:00Z";
}

abbrev pub read_back : CheckpointV1
read_back = record {
  canonical_chat_id = chat;
  last_completed_sequence = 4;
  policy_version = text "p1";
  template_version = text "t1";
  created_at = text "2024-02-29T10:00:00Z";
  goals = text "one goal" ∷ [];
  decisions = [];
  constraints = [];
  verified_facts = [];
  pending_work = [];
  approval_boundaries = [];
  next_steps = [];
  confirmed_tool_outcomes = [];
}

abbrev summary : Text
summary = join_lines (summary_lines read_back event)

summary_is_rendered :
    render_checkpoint_summary texts checkpoint event expected_identity 2048 ≡ some summary
unfolding render_checkpoint_summary validate_checkpoint is_valid distinct_attempts same_identity
    checkpoint_identity contains_sensitive find_sensitive push_items push_values join_lines
    summary_lines decimal utf8_length checkpoint_of notes_of note_field outcomes_of is_version
    closed_object text_field whole_field at keys_of includes text_eq scan is_timestamp is_opaque_id
    is_chat_jid is_group_jid is_jid behind_digits
summary_is_rendered = refl

render_checkpoint_summary-Checked_example :
    (c : CheckpointV1) × Checked texts checkpoint expected_identity 2048 c
    × (is_opaque_id event ≡ true)
    × (summary ≡ join_lines (summary_lines c event))
    × (utf8_length false summary ≤ 2048)
    × (texts.is_sensitive summary ≡ false)
render_checkpoint_summary-Checked_example =
    render_checkpoint_summary-Checked texts checkpoint expected_identity 2048 event summary
      summary_is_rendered

contains_sensitive_iff_example :
    (contains_sensitive texts.is_sensitive checkpoint ≡ false)
    ↔ ((weight checkpoint ≤ 4096) × (has_text texts.is_sensitive checkpoint ≡ false))
contains_sensitive_iff_example = contains_sensitive_iff texts.is_sensitive checkpoint

abbrev fence : Json
fence = object (
    member (text "owner") (string event) (
      member (text "epoch") (string (text "1"))
        (member (text "expiresAtMs") (number (whole 9)) end)))

abbrev fences : Json
fences = object (member (text "app") fence (member (text "chat") fence end))

-- A record of the one call of `send_message`, with the fields of its status.
abbrev pub sending : Text → Members → Json
sending status rest = object (
    member (text "version") (number (whole 1)) (
      member (text "eventFingerprint") (string print) (
        member (text "session") bound_data (
          member (text "state")
            (object (
              member (text "version") (number (whole 1)) (
                member (text "attemptId") (string event) (
                  member (text "eventId") (string event) (
                    member (text "canonicalChatId") (string chat) (
                      member (text "toolCallId") (string (text "call")) (
                        member (text "tool") (string (text "send_message")) (
                          member (text "destination") (string chat) (
                            member (text "startedAt") time (
                              member (text "ownership") fences
                                (member (text "status") (string status) rest)))))))))))
            end))))

abbrev pub finished_call : Members
finished_call = member (text "messageId") (string (text "m")) (member (text "finishedAt") time end)

abbrev sent_marker : Json
sent_marker = object (
    member (text "version") (number (whole 1)) (
      member (text "eventId") (string event) (
        member (text "eventFingerprint") (string print) (
          member (text "canonicalChatId") (string chat) (
            member (text "chatSequence") (number (whole 1)) (
              member (text "completion") (string (text "turn")) (
                member (text "completedAt") time (
                  member (text "confirmedSends")
                    (array (
                      cons
                        (object (
                          member (text "destination") (string chat)
                            (member (text "messageId") (string (text "m")) end)))
                        nil))
                    end))))))))

abbrev custom : Text → Json → SessionEntry
custom kind v = record { kind = text "custom"; custom_type = some kind; payload = some v }

abbrev branch : List SessionEntry
branch =
    custom binding_type bound_data
    ∷ custom mutation_type (sending (text "attempting") end)
    ∷ custom mutation_type (sending (text "confirmed") finished_call)
    ∷ custom completion_type sent_marker
    ∷ []

abbrev sent_message : ToolOutcome
sent_message = record {
  attempt_id = event;
  tool = text "send_message";
  destination = chat;
  message_id = text "m";
}

branch_proves : confirmed_history (λ a b. true) branch session 1 none ≡ some (sent_message ∷ [])
unfolding confirmed_history take_entries take_entry take_custom take_binding take_record take_marker
    settle_records add same_outcome same_mutation count_matches is_settled sort_outcomes
    insert_sorted lookup insert values journal_record_of mutation_state_of progress_of ownership_of
    fence_of marker_of send_of sends_of has_send completion_in binding_of is_fingerprint
    closed_object text_field whole_field at keys_of includes text_eq scan is_timestamp is_opaque_id
    is_chat_jid is_group_jid is_jid behind_digits same_binding is_bound starts_with
branch_proves = refl

confirmed_history-Backed_example : Each (λ o. Carried none o ⊎ Backed branch o) (sent_message ∷ [])
confirmed_history-Backed_example =
    confirmed_history-Backed (λ a b. true) branch session 1 none (sent_message ∷ []) branch_proves
