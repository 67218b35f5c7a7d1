-- ===== src/Intake/Admission.antt =====
-- intake/payload.ts: exactly the notifications that the operator's policy admits get through.
use whats_app_mcp_server.Base.{
  ◌≤◌, ◌≡◌, ◌↔◌, ◌⊎◌, true, false, Option, none, some, List, [], ◌∷◌, Text, text_eq_iff, holds_iff,
  arith,
}
use whats_app_mcp_server.Domain.Errors.{ok}
use whats_app_mcp_server.Domain.Events.{
  Notification, ChatKind, group, operator_private, check_notification,
}
use whats_app_mcp_server.Intake.Timestamp.{valid_timestamp, is_timestamp}
use whats_app_mcp_server.Intake.Payload.{
  AdmissionPolicy, includes, first, utf8_length, known_alias, admit, parse_payload,
}

-- `t` stands in the list.
abbrev pub In : Text → List Text → Type 0
In t [] = ⊥
In t (x ∷ xs) = (x ≡ t) ⊎ In t xs

includes_iff : (xs : List Text) (t : Text) → (includes xs t ≡ true) ↔ In t xs
unfolding includes
includes_iff [] t = ground arith
includes_iff (x ∷ xs) t = ground (arith, includes_iff xs t, text_eq_iff x t)

-- So does an alias, if it is there.
abbrev pub AliasIn : Option Text → List Text → Type 0
AliasIn none xs = Unit {0}
AliasIn (some t) xs = In t xs

-- The sender of a private message is the operator, under each of its names.
abbrev pub IsOperator : List Text → Notification → Type 0
IsOperator operators e = In e.sender_jid operators × AliasIn e.sender_alt_jid operators

-- What the policy admits: a message of an allowed group, in that group; or one of the operator's
-- private chat, filed under the operator's first address, from the account itself or the operator.
abbrev pub Admissible : AdmissionPolicy → ChatKind → Notification → Type 0
Admissible policy group e = (e.chat_jid ≡ e.canonical_chat_jid) × In e.chat_jid policy.groups
Admissible policy operator_private e =
    In e.chat_jid policy.operator_jids
    × (first policy.operator_jids ≡ some e.canonical_chat_jid)
    × ((e.is_from_me ≡ true) ⊎ IsOperator policy.operator_jids e)

known_alias_iff : (xs : List Text) (o : Option Text) → (known_alias xs o ≡ true) ↔ AliasIn o xs
known_alias_iff xs none = ground arith
known_alias_iff xs (some a) = includes_iff xs a

admit_iff :
    (policy : AdmissionPolicy) (kind : ChatKind) (e : Notification)
    → (admit policy kind e ≡ ok tt) ↔ Admissible policy kind e
unfolding admit
admit_iff policy group e =
    ground
      (arith, text_eq_iff e.chat_jid e.canonical_chat_jid, includes_iff policy.groups e.chat_jid)
admit_iff policy operator_private e = ground (
  arith,
  includes_iff policy.operator_jids e.chat_jid,
  includes_iff policy.operator_jids e.sender_jid,
  known_alias_iff policy.operator_jids e.sender_alt_jid,
  holds_iff (first policy.operator_jids) e.canonical_chat_jid,
)

parse_admitted :
    (decode : Text → Option Notification) (raw : Text) (policy : AdmissionPolicy) (e : Notification)
    → (parse_payload decode raw policy ≡ ok e) ↔ (
        (decode raw ≡ some e)
        × (check_notification is_timestamp e ≡ true)
        × (valid_timestamp e.event_timestamp ≡ true)
        × (valid_timestamp e.received_at ≡ true)
        × (utf8_length false e.message_id ≤ 512)
        × (admit policy e.chat_kind e ≡ ok tt))
unfolding parse_payload
parse_admitted decode raw policy e = ground arith

-- A body is taken exactly if it decodes to a notification of the schema, with two timestamps of the
-- calendar and a message id of at most 512 bytes, that the policy admits; and it is taken as it is.
pub parse_payload_iff :
    (decode : Text → Option Notification) (raw : Text) (policy : AdmissionPolicy) (e : Notification)
    → (parse_payload decode raw policy ≡ ok e) ↔ (
        (decode raw ≡ some e)
        × (check_notification is_timestamp e ≡ true)
        × (valid_timestamp e.event_timestamp ≡ true)
        × (valid_timestamp e.received_at ≡ true)
        × (utf8_length false e.message_id ≤ 512)
        × Admissible policy e.chat_kind e)
parse_payload_iff decode raw policy e =
    let (out, back) = parse_admitted decode raw policy e in
    let (is_admissible, is_admitted) = admit_iff policy e.chat_kind e in
    (
      λ h. let (a, b, c, d, f, g) = out h in (a, b, c, d, f, is_admissible g),
      λ (a, b, c, d, f, g). back (a, b, c, d, f, is_admitted g),
    )
