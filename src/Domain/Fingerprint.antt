-- ===== src/Domain/Fingerprint.antt =====
-- `fingerprintEvent` of domain.ts: the digest of an event's canonical JSON text.
use whats_app_mcp_server.Base.{
  ℕ, zero, suc, ◌+◌, ◌/◌, ◌%◌, Bool, true, false, ◌&&◌, ◌||◌, not, Option, none, some, List, [],
  ◌∷◌, ◌++◌, ltb, leb, ◌==◌, if◌then◌else◌, Text, text,
}
use whats_app_mcp_server.Domain.Events.{
  Notification, ChatKind, group, operator_private, check_notification,
}
use whats_app_mcp_server.Domain.Errors.{Result, ok, err, payload_invalid}

-- `JSON.stringify` of a number below 10 ^ n, in decimal.
unfoldable pub decimal : ℕ → ℕ → Text
decimal zero k = []
decimal (suc n) k =
    let rest = decimal n (k / 10) in if ltb k 10 then (48 + k) ∷ [] else rest ++ (48 + k % 10) ∷ []

abbrev hex_digit : ℕ → ℕ
hex_digit d = if ltb d 10 then 48 + d else 87 + d

-- `\uXXXX`.
abbrev unicode_escape : ℕ → Text
unicode_escape c =
    92
    ∷ 117
    ∷ hex_digit (c / 4096 % 16)
    ∷ hex_digit (c / 256 % 16)
    ∷ hex_digit (c / 16 % 16)
    ∷ hex_digit (c % 16)
    ∷ []

-- A character inside a JSON string, with the short escapes and the lone surrogates.
unfoldable pub escape : ℕ → Text
escape c =
    if c == 34
    then 92 ∷ 34 ∷ []
    else if c == 92
    then 92 ∷ 92 ∷ []
    else if c == 8
    then text "\\b"
    else if c == 9
    then text "\\t"
    else if c == 10
    then text "\\n"
    else if c == 12
    then text "\\f"
    else if c == 13
    then text "\\r"
    else if ltb c 32
    then unicode_escape c
    else if leb 55296 c && leb c 57343
    then unicode_escape c
    else c ∷ []

abbrev is_high : ℕ → Bool
is_high c = leb 55296 c && leb c 56319

abbrev starts_low : Text → Bool
starts_low [] = false
starts_low (c ∷ cs) = leb 56320 c && leb c 57343

-- The second half of a surrogate pair stands for itself, as the first does.
unfoldable pub escapes : Bool → Text → Text
escapes second [] = []
escapes second (c ∷ cs) =
    let pair = not second && is_high c && starts_low cs in
    let rest = escapes pair cs in if second || pair then c ∷ rest else escape c ++ rest

-- `JSON.stringify` of a string.
unfoldable pub quote : Text → Text
quote t = 34 ∷ escapes false t ++ 34 ∷ []

abbrev truth : Bool → Text
truth true = text "true"
truth false = text "false"

abbrev quote_or_null : Option Text → Text
quote_or_null none = text "null"
quote_or_null (some t) = quote t

abbrev kind_name : ChatKind → Text
kind_name group = text "group"
kind_name operator_private = text "operator_private"

-- The elements of a JSON array of the values' texts.
unfoldable pub joined : List Text → Text
joined [] = []
joined (t ∷ []) = t
joined (t ∷ u ∷ ts) = t ++ 44 ∷ joined (u ∷ ts)

-- The two literals of the schema first, then every field. A safe integer has at most 16 digits.
unfoldable pub canonical : Notification → Text
canonical e =
    91
      ∷ joined (
          text "2"
          ∷ quote (text "whatsapp.message.received")
          ∷ quote e.event_id
          ∷ quote e.message_id
          ∷ quote e.event_timestamp
          ∷ quote e.received_at
          ∷ decimal 16 e.chat_sequence
          ∷ quote e.sender_jid
          ∷ quote_or_null e.sender_alt_jid
          ∷ truth e.is_from_me
          ∷ quote (kind_name e.chat_kind)
          ∷ quote e.chat_jid
          ∷ quote e.canonical_chat_jid
          ∷ [])
    ++ 93 ∷ []

-- `sha256` answers with the digest of a text's UTF-8 bytes in hexadecimal; `is_timestamp` is the
-- pattern of the schema's timestamps.
unfoldable pub fingerprint_event : (Text → Text) → (Text → Bool) → Notification → Result Text
fingerprint_event sha256 is_timestamp e =
    if check_notification is_timestamp e
    then ok (text "sha256:v1:" ++ sha256 ((text "sc:immutable-event:v1" ++ 0 ∷ []) ++ canonical e))
    else err payload_invalid
