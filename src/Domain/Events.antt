-- ===== src/Domain/Events.antt =====
-- `NotificationV2Schema` of domain.ts.
use whats_app_mcp_server.Base.{ℕ, Bool, true, ◌&&◌, Option, none, some, leb, length, Text}
use whats_app_mcp_server.Domain.Patterns.{
  is_opaque_id, is_group_jid, is_private_jid, is_participant_jid, is_sequence,
}

pub data ChatKind : Type 0 where
  group operator_private : ChatKind

-- The fields of version 2 of a received message; the two literal fields have no choice.
pub record Notification : Type 0 where
  pub event_id : Text
  pub message_id : Text
  pub event_timestamp : Text
  pub received_at : Text
  pub chat_sequence : ℕ
  pub sender_jid : Text
  pub sender_alt_jid : Option Text
  pub is_from_me : Bool
  pub chat_kind : ChatKind
  pub chat_jid : Text
  pub canonical_chat_jid : Text

abbrev pub chat_pattern : ChatKind → Text → Bool
chat_pattern group = is_group_jid
chat_pattern operator_private = is_private_jid

abbrev pub optional : (Text → Bool) → Option Text → Bool
optional p none = true
optional p (some t) = p t

-- `Value.Check(NotificationV2Schema, …)` on an object of these fields; the timestamps are checked by
-- `is_timestamp`, the pattern of `TimestampSchema`. The length of a text counts its code units.
unfoldable pub check_notification : (Text → Bool) → Notification → Bool
check_notification is_timestamp e =
    is_opaque_id e.event_id
    && leb 1 (length e.message_id)
    && leb (length e.message_id) 512
    && is_timestamp e.event_timestamp
    && is_timestamp e.received_at
    && is_sequence e.chat_sequence
    && is_participant_jid e.sender_jid
    && optional is_participant_jid e.sender_alt_jid
    && chat_pattern e.chat_kind e.chat_jid
    && chat_pattern e.chat_kind e.canonical_chat_jid
