-- ===== src/Tests/Owns.antt =====
-- A journal with one confirmed record, which `ownMutation` is asked about.
use whats_app_mcp_server.Base.{
  ◌≡◌, refl, true, none, some, Option, [], ◌∷◌, if◌then◌else◌, Text, text, text_eq,
}
use whats_app_mcp_server.Base.Each.{Each}
use whats_app_mcp_server.Json.{Json, at, keys_of}
use whats_app_mcp_server.Domain.Errors.{ok}
use whats_app_mcp_server.Domain.Mutations.{journal_record_of, mutation_state_of, progress_of}
use whats_app_mcp_server.Domain.Patterns.{
  is_opaque_id, is_chat_jid, is_group_jid, is_jid, behind_digits,
}
use whats_app_mcp_server.Domain.Schemas.{
  binding_of, fence_of, ownership_of, is_fingerprint, closed_object, text_field, whole_field,
}
use whats_app_mcp_server.Intake.Payload.{includes}
use whats_app_mcp_server.Intake.Timestamp.{scan, days_of, is_leap, is_timestamp}
use whats_app_mcp_server.Scheduler.Work.{same_binding}
use whats_app_mcp_server.Journal.Sends.{own_confirmed}
use whats_app_mcp_server.Repository.Own.{
  OwnView, stored_record, stored_state, review, review_journal, review_chats, own_mutation,
}
use whats_app_mcp_server.Repository.Reviewed.{Reviewed, own_mutation-Reviewed}
use whats_app_mcp_server.Tests.Sessions.{bound_data, chat}
use whats_app_mcp_server.Tests.Checkpoints.{sending, finished_call}

-- The documents are the texts `B`, a binding, and `J`, the record.
abbrev parse : Text → Option Json
parse t =
    if text_eq t (text "B")
    then some bound_data
    else if text_eq t (text "J")
    then some (sending (text "confirmed") finished_call)
    else none

abbrev view : Text → OwnView
view c = record { session = ok (some (text "B")); journal = ok (text "J" ∷ []) }

message_is_ours : own_mutation parse chat (text "m") view (chat ∷ []) ≡ ok own_confirmed
unfolding own_mutation review_chats review_journal review stored_record stored_state
    journal_record_of mutation_state_of progress_of ownership_of fence_of binding_of is_fingerprint
    closed_object text_field whole_field at keys_of includes text_eq scan days_of is_leap
    is_timestamp is_opaque_id is_chat_jid is_group_jid is_jid behind_digits same_binding
message_is_ours = refl

own_mutation-Reviewed_example : Each (Reviewed parse chat (text "m") view true) (chat ∷ [])
own_mutation-Reviewed_example =
    own_mutation-Reviewed parse chat (text "m") view (chat ∷ []) true message_is_ours
