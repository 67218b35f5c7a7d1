-- ===== src/Intake/Payload.antt =====
-- `parsePayload` of intake/payload.ts. `decode` is UTF-8 decoding, `JSON.parse` and the shape of the
-- object; the patterns of its fields are checked here.
use whats_app_mcp_server.Base.{
  ℕ, ◌+◌, Bool, true, false, ◌&&◌, ◌||◌, Option, none, some, List, [], ◌∷◌, leb, ltb, if◌then◌else◌,
  Text, text_eq, holds,
}
use whats_app_mcp_server.Domain.Errors.{
  Result, ok, err, ◌>>=◌, ◌>>◌, require, payload_invalid, policy_denied,
}
use whats_app_mcp_server.Domain.Events.{
  Notification, ChatKind, group, operator_private, check_notification,
}
use whats_app_mcp_server.Intake.Timestamp.{valid_timestamp, is_timestamp}

pub record AdmissionPolicy : Type 0 where
  pub groups : List Text
  pub operator_jids : List Text

-- `xs.includes(t)`.
unfoldable pub includes : List Text → Text → Bool
includes [] t = false
includes (x ∷ xs) t = text_eq x t || includes xs t

abbrev pub first : List Text → Option Text
first [] = none
first (x ∷ xs) = some x

-- UTF-16: the halves of a pair.
abbrev is_high : ℕ → Bool
is_high c = leb 0xd800 c && leb c 0xdbff

abbrev is_low : ℕ → Bool
is_low c = leb 0xdc00 c && leb c 0xdfff

-- `Buffer.byteLength(s, 'utf8')`: a pair takes four bytes, three of them counted at its first half.
unfoldable pub utf8_length : Bool → Text → ℕ
utf8_length high [] = 0
utf8_length high (c ∷ cs) =
    utf8_length (is_high c) cs
    + (if ltb c 0x80 then 1 else if ltb c 0x800 then 2 else if high && is_low c then 1 else 3)

-- An alias that is there must be an operator's.
abbrev pub known_alias : List Text → Option Text → Bool
known_alias operators none = true
known_alias operators (some t) = includes operators t

-- The branch on `p.chat_kind`.
unfoldable pub admit : AdmissionPolicy → ChatKind → Notification → Result (Unit {0})
admit policy group e = do
  require (text_eq e.chat_jid e.canonical_chat_jid) payload_invalid
  require (includes policy.groups e.chat_jid) policy_denied
admit policy operator_private e = do
  require
      (includes policy.operator_jids e.chat_jid
        && holds (first policy.operator_jids) e.canonical_chat_jid)
      policy_denied
  require
      (e.is_from_me
        || includes policy.operator_jids e.sender_jid
          && known_alias policy.operator_jids e.sender_alt_jid)
      policy_denied

abbrev or_fail : Option Notification → Result Notification
or_fail none = err payload_invalid
or_fail (some e) = ok e

unfoldable pub parse_payload :
    (Text → Option Notification) → Text → AdmissionPolicy → Result Notification
parse_payload decode raw policy = do
  e ← or_fail (decode raw)
  require (check_notification is_timestamp e) payload_invalid
  require
      (valid_timestamp e.event_timestamp
        && valid_timestamp e.received_at
        && leb (utf8_length false e.message_id) 512)
      payload_invalid
  admit policy e.chat_kind e
  ok e
