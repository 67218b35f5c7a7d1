-- ===== src/Journal/Confirmation.antt =====
-- `confirmedMessage` of pi/tool-journal-extension.ts: the id of a message that a tool's result proves.
use whats_app_mcp_server.Base.{
  ℕ, zero, suc, Bool, true, false, not, ◌&&◌, Option, none, some, List, [], ◌∷◌, leb, all, length,
  is_some, Text, text, text_eq, holds, ◌==◌,
}
use whats_app_mcp_server.Json.{
  Json, boolean, array, object, Items, nil, cons, Members, end, member, ◌>>=◌, ◌>>◌, guard, at,
  as_object, as_text, as_array, keys_of,
}
use whats_app_mcp_server.Domain.Schemas.{closed_object, is_message_id}
use whats_app_mcp_server.Intake.Payload.{utf8_length}
use whats_app_mcp_server.Intake.Signature.{is_blank}
use whats_app_mcp_server.Journal.Arguments.{adapter_server}

-- `exactKeys`, for keys in alphabetical order: an object has each key once.
unfoldable pub exact_keys : Members → List Text → Bool
exact_keys ms keys = length (keys_of ms) == length keys && all (λ k. is_some (at k ms)) keys

-- `withinDepth`.
unfoldable mutual
  pub within_depth : ℕ → Json → Bool
  within_depth zero (array xs) = false
  within_depth zero (object ms) = false
  within_depth (suc n) (array xs) = items_within n xs
  within_depth (suc n) (object ms) = members_within n ms
  within_depth n v = true

  pub items_within : ℕ → Items → Bool
  items_within n nil = true
  items_within n (cons x xs) = within_depth n x && items_within n xs

  pub members_within : ℕ → Members → Bool
  members_within n end = true
  members_within n (member k v ms) = within_depth n v && members_within n ms

-- The event of a tool's result.
pub record ToolResult : Type 0 where
  pub details : Option Json
  pub is_error : Bool
  pub content : Option Json

abbrev pub is_false : Option Json → Bool
is_false none = true
is_false (some (boolean b)) = not b
is_false _ = false

abbrev pub is_set_true : Option Json → Bool
is_set_true (some (boolean b)) = b
is_set_true _ = false

-- The first entry of a list, and the only one.
abbrev pub first_of : Items → Option Json
first_of nil = none
first_of (cons x xs) = some x

abbrev pub only_of : Items → Option Json
only_of (cons x nil) = some x
only_of _ = none

-- The text of a block with a type and a text only.
unfoldable pub text_block : Option Json → Option Text
unfolding exact_keys
text_block v = do
  ms ← as_object v
  guard (
      exact_keys ms (text "text" ∷ text "type" ∷ [])
      && holds (as_text (at (text "type") ms)) (text "text"))
  as_text (at (text "text") ms)

-- The result string of the envelope, which its one block repeats.
unfoldable pub envelope_text : Members → Option Text
unfolding closed_object exact_keys
envelope_text envelope = do
  guard (
      closed_object (text "content" ∷ text "structuredContent" ∷ text "isError" ∷ text "_meta" ∷ [])
        envelope
      && is_false (at (text "isError") envelope))
  xs ← as_array (at (text "content") envelope)
  block ← text_block (only_of xs)
  structured ← as_object (at (text "structuredContent") envelope)
  guard (exact_keys structured (text "result" ∷ []))
  result ← as_text (at (text "result") structured)
  guard (text_eq block result)
  some result

-- The message id of a payload.
unfoldable pub payload_message : Option Json → Option Text
unfolding exact_keys
payload_message v = do
  payload ← as_object v
  guard (
      within_depth 1 (object payload)
      && exact_keys payload (text "message_id" ∷ text "success" ∷ [])
      && is_set_true (at (text "success") payload))
  id ← as_text (at (text "message_id") payload)
  guard (is_message_id id && not (all is_blank id) && leb (utf8_length false id) 512)
  some id

-- The retained envelope of a result of this tool by this server, without an error.
unfoldable pub retained : ToolResult → Text → Option Members
retained e tool = do
  details ← as_object e.details
  envelope ← as_object (at (text "mcpResult") details)
  guard (
      not e.is_error
      && holds (as_text (at (text "server") details)) adapter_server
      && holds (as_text (at (text "tool") details)) tool
      && not (is_some (at (text "error") details))
      && not (is_some (at (text "outputGuard") details)))
  some envelope

-- `confirmedMessage`; `parse` is `JSON.parse`.
unfoldable pub confirmed_message : (Text → Option Json) → ToolResult → Text → Option Text
confirmed_message parse e tool = do
  envelope ← retained e tool
  raw ← envelope_text envelope
  visible ← as_array e.content
  shown ← text_block (first_of visible)
  guard (text_eq shown raw && leb 2 (utf8_length false raw) && leb (utf8_length false raw) 4096)
  payload_message (parse raw)
