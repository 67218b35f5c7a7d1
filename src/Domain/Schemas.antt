-- ===== src/Domain/Schemas.antt =====
-- The object schemas of domain.ts that are checked on values read back from JSON: `checked` answers
-- the typed value, or throws. A closed_object schema (`additionalProperties: false`) admits no other key.
use whats_app_mcp_server.Base.{
  ℕ, Bool, false, not, ◌&&◌, ◌||◌, Option, none, some, List, [], ◌∷◌, if◌then◌else◌, leb, length,
  all, Text, text, text_eq, ◌==◌,
}
use whats_app_mcp_server.Json.{
  whole, Json, number, Items, nil, cons, Members, ◌>>=◌, ◌>>◌, guard, at, as_object, as_text,
  as_array, keys_of,
}
use whats_app_mcp_server.Domain.Patterns.{is_opaque_id, is_chat_jid, is_sequence, is_hex, max_safe}
use whats_app_mcp_server.Intake.Payload.{includes}
use whats_app_mcp_server.Intake.Timestamp.{is_timestamp}
use whats_app_mcp_server.Scheduler.Work.{
  SessionBinding, Completion, turn, context_only, Send, CompletionMarker, Fence, Ownership,
}

-- `additionalProperties: false`.
unfoldable pub closed_object : List Text → Members → Bool
closed_object keys ms = all (includes keys) (keys_of ms)

abbrev pub within : ℕ → ℕ → Text → Bool
within low high t = leb low (length t) && leb (length t) high

-- A string of a pattern, under a key.
unfoldable pub text_field : (Text → Bool) → Text → Members → Option Text
text_field p key ms = do t ← as_text (at key ms); guard (p t); some t

abbrev as_whole : Option Json → Option ℕ
as_whole (some (number (whole n))) = some n
as_whole _ = none

-- `Type.Integer` with bounds.
unfoldable pub whole_field : (ℕ → Bool) → Text → Members → Option ℕ
whole_field p key ms = do n ← as_whole (at key ms); guard (p n); some n

-- `CounterSchema`.
abbrev pub is_counter : ℕ → Bool
is_counter n = leb n max_safe

-- `version: Type.Literal(1)`.
abbrev pub first_version : Members → Option ℕ
first_version ms = whole_field (λ n. n == 1) (text "version") ms

-- `EventFingerprintSchema`.
abbrev strip : Text → Text → Option Text
strip [] t = some t
strip (p ∷ ps) [] = none
strip (p ∷ ps) (c ∷ cs) = let rest = strip ps cs in if p == c then rest else none

abbrev is_digest : Option Text → Bool
is_digest none = false
is_digest (some t) = length t == 64 && all is_hex t

unfoldable pub is_fingerprint : Text → Bool
is_fingerprint t = is_digest (strip (text "sha256:v1:") t)

-- `SessionBindingSchema`.
unfoldable pub binding_of : Option Json → Option SessionBinding
unfolding closed_object text_field
binding_of v = do
  ms ← as_object v
  guard (closed_object (text "canonicalChatId" ∷ text "sessionId" ∷ text "sessionFile" ∷ []) ms)
  chat ← text_field is_chat_jid (text "canonicalChatId") ms
  id ← text_field (within 1 128) (text "sessionId") ms
  file ← text_field (within 1 4096) (text "sessionFile") ms
  some (record { canonical_chat_id = chat; session_id = id; session_file = file })

-- `MessageIdSchema`.
abbrev pub is_message_id : Text → Bool
is_message_id t = within 1 512 t

unfoldable pub send_of : Option Json → Option Send
unfolding closed_object text_field
send_of v = do
  ms ← as_object v
  guard (closed_object (text "destination" ∷ text "messageId" ∷ []) ms)
  to ← text_field is_chat_jid (text "destination") ms
  id ← text_field is_message_id (text "messageId") ms
  some (record { destination = to; message_id = id })

abbrev pub same_send : Send → Send → Bool
same_send a b = text_eq a.destination b.destination && text_eq a.message_id b.message_id

unfoldable pub has_send : List Send → Send → Bool
has_send [] b = false
has_send (a ∷ rest) b = same_send a b || has_send rest b

-- `Type.Array(…, { uniqueItems: true })`.
unfoldable pub sends_of : Items → Option (List Send)
unfolding has_send
sends_of nil = some []
sends_of (cons x xs) = do
  s ← send_of (some x)
  ss ← sends_of xs
  guard (not (has_send ss s))
  some (s ∷ ss)

-- `completion: literalSet('turn', 'context_only')`.
unfoldable pub completion_in : Text → Option Completion
completion_in t =
    if text_eq t (text "turn")
    then some turn
    else if text_eq t (text "context_only")
    then some context_only
    else none

-- `CompletionMarkerSchema`.
unfoldable pub marker_of : Option Json → Option CompletionMarker
unfolding closed_object text_field whole_field
marker_of v = do
  ms ← as_object v
  guard (
      closed_object
        (text "version"
          ∷ text "eventId"
          ∷ text "eventFingerprint"
          ∷ text "canonicalChatId"
          ∷ text "chatSequence"
          ∷ text "completion"
          ∷ text "completedAt"
          ∷ text "confirmedSends"
          ∷ [])
        ms)
  one ← first_version ms
  event ← text_field is_opaque_id (text "eventId") ms
  fp ← text_field is_fingerprint (text "eventFingerprint") ms
  chat ← text_field is_chat_jid (text "canonicalChatId") ms
  seq ← whole_field is_sequence (text "chatSequence") ms
  kind ← as_text (at (text "completion") ms)
  completion ← completion_in kind
  finished ← text_field is_timestamp (text "completedAt") ms
  items ← as_array (at (text "confirmedSends") ms)
  sends ← sends_of items
  some (record {
    event_id = event;
    event_fingerprint = fp;
    canonical_chat_id = chat;
    chat_sequence = seq;
    completion = completion;
    completed_at = finished;
    confirmed_sends = sends;
  })

-- `^[1-9]\d*$`, at most 32 characters.
abbrev pub is_epoch : Text → Bool
is_epoch [] = false
is_epoch (c ∷ cs) =
    leb b'1' c && leb c b'9' && all (λ d. leb b'0' d && leb d b'9') cs && leb (length (c ∷ cs)) 32

-- `FenceSchema` and `OwnershipSchema`.
unfoldable pub fence_of : Option Json → Option Fence
unfolding closed_object text_field whole_field
fence_of v = do
  ms ← as_object v
  guard (closed_object (text "owner" ∷ text "epoch" ∷ text "expiresAtMs" ∷ []) ms)
  owner ← text_field is_opaque_id (text "owner") ms
  epoch ← text_field is_epoch (text "epoch") ms
  expires ← whole_field is_counter (text "expiresAtMs") ms
  some (record { owner = owner; epoch = epoch; expires_at = expires })

unfoldable pub ownership_of : Option Json → Option Ownership
unfolding closed_object
ownership_of v = do
  ms ← as_object v
  guard (closed_object (text "app" ∷ text "chat" ∷ []) ms)
  app ← fence_of (at (text "app") ms)
  chat ← fence_of (at (text "chat") ms)
  some (record { app = app; chat = chat })
