-- ===== src/Journal/Arguments.antt =====
-- pi/tool-journal-extension.ts: the tools, whom a message may mention, and where it goes.
use whats_app_mcp_server.Base.{
  Bool, true, false, not, ◌&&◌, ◌||◌, Option, none, some, List, [], ◌∷◌, ◌++◌, if◌then◌else◌, leb,
  any, is_empty, Text, text, text_eq, holds, ◌==◌,
}
use whats_app_mcp_server.Json.{
  Json, string, null, array, nil, cons, Members, ◌>>=◌, ◌>>◌, guard, at, as_text,
}
use whats_app_mcp_server.Domain.Events.{Notification}
use whats_app_mcp_server.Domain.Mutations.{mutation_tools}
use whats_app_mcp_server.Domain.Patterns.{is_digit, is_chat_jid, behind_digits, participant_suffix}
use whats_app_mcp_server.Intake.Payload.{includes, utf8_length}

-- `WHATSAPP_SERVER` of pi/mcp-loader.ts, and the adapter's name of it.
abbrev pub whatsapp_server : Text
whatsapp_server = text "whatsapp_session_controller"

abbrev pub adapter_server : Text
adapter_server = whatsapp_server ++ text "_"

-- `fields`: the argument that names the chat.
unfoldable pub chat_field : Text → Text
chat_field tool =
    if text_eq tool (text "send_message") || text_eq tool (text "send_media")
    then text "to"
    else if text_eq tool (text "send_group_message") || text_eq tool (text "send_auto_message")
    then text "jid"
    else text "chat_jid"

-- `toolOf`.
unfoldable pub find_tool : Text → List Text → Option Text
find_tool name [] = none
find_tool name (t ∷ ts) =
    if text_eq name (text "mcp__" ++ whatsapp_server ++ text "__" ++ t)
    then some t
    else find_tool name ts

unfoldable pub tool_of : Text → Option Text
unfolding find_tool
tool_of name = find_tool name mutation_tools

-- The digits in front of a text.
unfoldable pub front_digits : Text → Text
front_digits [] = []
front_digits (c ∷ cs) = let rest = front_digits cs in if is_digit c then c ∷ rest else []

-- `^(\d+)@(…)$`.
abbrev short_text : Text → Bool
short_text t = leb (utf8_length false t) 128

unfoldable pub canonical_identity : Text → Option Text
canonical_identity t =
    if short_text t && not (is_empty (front_digits t)) && participant_suffix (behind_digits t)
    then some t
    else none

-- `^(\d+)(?::\d+)?@(…)$`: the identity without the device.
abbrev without_device : Text → Option Text
without_device [] = none
without_device (c ∷ cs) =
    if c == b':'
    then (if is_empty (front_digits cs) then none else some (behind_digits cs))
    else some (c ∷ cs)

abbrev with_server : Text → Option Text → Option Text
with_server digits none = none
with_server digits (some rest) = if participant_suffix rest then some (digits ++ rest) else none

unfoldable pub alias_identity : Text → Option Text
alias_identity t =
    if short_text t && not (is_empty (front_digits t))
    then with_server (front_digits t) (without_device (behind_digits t))
    else none

-- `undefined`, `null` or the empty string.
abbrev is_unset : Option Json → Bool
is_unset none = true
is_unset (some null) = true
is_unset (some (string t)) = is_empty t
is_unset _ = false

abbrev is_alias : Option Text → Text → Bool
is_alias none m = false
is_alias (some a) m = holds (alias_identity a) m

-- Whether a mention is of the event's sender.
abbrev pub mentions_sender : Notification → Option Text → Bool
mentions_sender e none = false
mentions_sender e (some m) = is_alias (some e.sender_jid) m || is_alias e.sender_alt_jid m

abbrev mention_in : Option Text → Option Text
mention_in none = none
mention_in (some t) = canonical_identity t

abbrev allows_mentions : Notification → Option Json → Bool
allows_mentions e none = true
allows_mentions e (some null) = true
allows_mentions e (some (array nil)) = true
allows_mentions e (some (array (cons m nil))) = mentions_sender e (mention_in (as_text (some m)))
allows_mentions e _ = false

-- `attributionTools`.
abbrev pub attribution_tools : List Text
attribution_tools = text "send_message" ∷ text "send_group_message" ∷ text "send_auto_message" ∷ []

-- `permitsParticipantAttribution`.
unfoldable pub permits_attribution : Text → Members → Notification → Bool
permits_attribution tool input e =
    not (includes attribution_tools tool)
    || is_unset (at (text "quoted_message_id") input)
      && is_unset (at (text "quoted_participant") input)
      && allows_mentions e (at (text "mentions") input)

unfoldable pub only_digits : Text → Text
only_digits [] = []
only_digits (c ∷ cs) = let rest = only_digits cs in if is_digit c then c ∷ rest else rest

abbrev pub normalizes : Text → Bool
normalizes tool =
    text_eq tool (text "send_message")
    || text_eq tool (text "send_auto_message")
    || text_eq tool (text "send_media")

-- `mutationDestination`; none throws.
unfoldable pub mutation_destination : Text → Members → Option Text
unfolding chat_field only_digits
mutation_destination tool input = do
  value ← as_text (at (chat_field tool) input)
  let digits = only_digits value
  let bare = normalizes tool && not (any (λ c. c == b'@') value) && not (is_empty digits)
  let actual = if bare then digits ++ text "@s.whatsapp.net" else value
  guard (is_chat_jid actual)
  some actual
