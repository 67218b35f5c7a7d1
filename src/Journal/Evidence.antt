-- ===== src/Journal/Evidence.antt =====
-- pi/tool-journal-extension.ts: what a confirmed message has been read from.
use whats_app_mcp_server.Base.{
  ◌≡◌, refl, ◌⊎◌, none, ◌≤◌, ap, ◌∙◌, subst, arith, Bool, true, false, not, Option, some, [], ◌∷◌,
  leb, leb_iff, length, is_some, Text, text, text_eq, text_eq_iff, holds, holds_iff, ◌==◌, ==_iff,
}
use whats_app_mcp_server.Json.{
  Json, boolean, string, array, object, nil, cons, Items, Members, at, as_object, as_text, as_array,
  keys_of,
}
use whats_app_mcp_server.Json.Inversion.{bind-some, guard-some, some-injective, none-some, and-true}
use whats_app_mcp_server.Domain.Schemas.{closed_object, is_message_id}
use whats_app_mcp_server.Intake.Payload.{utf8_length}
use whats_app_mcp_server.Journal.Arguments.{adapter_server}
use whats_app_mcp_server.Journal.Confirmation.{
  ToolResult, exact_keys, within_depth, is_set_true, is_false, first_of, only_of, text_block,
  envelope_text, payload_message, retained, confirmed_message,
}

as_object-some : (v : Option Json) (ms : Members) → as_object v ≡ some ms → v ≡ some (object ms)
as_object-some v ms h = ground (arith, h)

as_text-some : (v : Option Json) (t : Text) → as_text v ≡ some t → v ≡ some (string t)
as_text-some v t h = ground (arith, h)

is_set_true-some : (v : Option Json) → is_set_true v ≡ true → v ≡ some (boolean true)
is_set_true-some v h = ground (arith, h)

-- An object of two members, `success` which is true and the message's id, and no deeper value.
pub record Payload (v : Option Json) (id : Text) : Type 0 where
  pub members : Members
  pub value : v ≡ some (object members)
  pub flat : within_depth 1 (object members) ≡ true
  pub two : length (keys_of members) ≡ 2
  pub success : at (text "success") members ≡ some (boolean true)
  pub message : at (text "message_id") members ≡ some (string id)
  pub well_formed : is_message_id id ≡ true

payload_message-Payload : (v : Option Json) (id : Text) → payload_message v ≡ some id → Payload v id
unfolding payload_message exact_keys
payload_message-Payload v id h =
    let (ms, p, h₁) = bind-some (as_object v) _ h in
    let (c, h₂) = guard-some _ _ h₁ in
    let (c₁, success) = and-true _ (is_set_true (at (text "success") ms)) c in
    let (flat, keys) =
      and-true (within_depth 1 (object ms))
        (exact_keys ms (text "message_id" ∷ text "success" ∷ [])) c₁ in
    let (two, there) = and-true (length (keys_of ms) == 2) _ keys in
    let (t, q, h₃) = bind-some (as_text (at (text "message_id") ms)) _ h₂ in
    let (d, same) = guard-some _ _ h₃ in
    let (d₁, short) = and-true _ (leb (utf8_length false t) 512) d in
    let (formed, blank) = and-true (is_message_id t) _ d₁ in
    subst (Payload v) (some-injective same) (record {
      members = ms;
      value = as_object-some v ms p;
      flat = flat;
      two = (==_iff (length (keys_of ms)) 2).0 two;
      success = is_set_true-some (at (text "success") ms) success;
      message = as_text-some (at (text "message_id") ms) t q;
      well_formed = formed;
    })

-- The retained envelope is of a result without an error, of this tool, from the controller's server.
pub record Retained (e : ToolResult) (tool : Text) (envelope : Members) : Type 0 where
  pub details : Members
  pub detailed : e.details ≡ some (object details)
  pub enclosed : at (text "mcpResult") details ≡ some (object envelope)
  pub no_error : e.is_error ≡ false
  pub server : as_text (at (text "server") details) ≡ some adapter_server
  pub of_tool : as_text (at (text "tool") details) ≡ some tool
  pub error : is_some (at (text "error") details) ≡ false
  pub output_guard : is_some (at (text "outputGuard") details) ≡ false

not-true : (b : Bool) → not b ≡ true → b ≡ false
not-true b h = ground arith

retained-Retained :
    (e : ToolResult) (tool : Text) (envelope : Members)
    → retained e tool ≡ some envelope
    → Retained e tool envelope
unfolding retained
retained-Retained e tool envelope h =
    let (ds, p, h₁) = bind-some (as_object e.details) _ h in
    let (ms, q, h₂) = bind-some (as_object (at (text "mcpResult") ds)) _ h₁ in
    let (c, same) = guard-some _ _ h₂ in
    let (c₁, guarded) = and-true _ (not (is_some (at (text "outputGuard") ds))) c in
    let (c₂, errors) = and-true _ (not (is_some (at (text "error") ds))) c₁ in
    let (c₃, tooled) = and-true _ (holds (as_text (at (text "tool") ds)) tool) c₂ in
    let (fine, served) = and-true (not e.is_error) _ c₃ in
    subst (Retained e tool) (some-injective same) (record {
      details = ds;
      detailed = as_object-some e.details ds p;
      enclosed = as_object-some (at (text "mcpResult") ds) ms q;
      no_error = not-true e.is_error fine;
      server = (holds_iff (as_text (at (text "server") ds)) adapter_server).0 served;
      of_tool = (holds_iff (as_text (at (text "tool") ds)) tool).0 tooled;
      error = not-true _ errors;
      output_guard = not-true _ guarded;
    })

-- A block of two members, its type, which is `text`, and this text.
pub record TextBlock (v : Option Json) (t : Text) : Type 0 where
  pub members : Members
  pub value : v ≡ some (object members)
  pub two : length (keys_of members) ≡ 2
  pub kind : at (text "type") members ≡ some (string (text "text"))
  pub shown : at (text "text") members ≡ some (string t)

text_block-TextBlock : (v : Option Json) (t : Text) → text_block v ≡ some t → TextBlock v t
unfolding text_block exact_keys
text_block-TextBlock v t h =
    let (ms, p, h₁) = bind-some (as_object v) _ h in
    let (c, h₂) = guard-some _ _ h₁ in
    let (keys, kind) = and-true _ (holds (as_text (at (text "type") ms)) (text "text")) c in
    let (two, there) = and-true (length (keys_of ms) == 2) _ keys in
    record {
      members = ms;
      value = as_object-some v ms p;
      two = (==_iff (length (keys_of ms)) 2).0 two;
      kind =
          as_text-some (at (text "type") ms) (text "text")
            ((holds_iff (as_text (at (text "type") ms)) (text "text")).0 kind);
      shown = as_text-some (at (text "text") ms) t h₂;
    }

-- An envelope of the known keys, without an error; its content is one block with the result string,
-- which is all of the structured content.
pub record Enveloped (envelope : Members) (raw : Text) : Type 0 where
  pub known_keys :
      closed_object
        (text "content" ∷ text "structuredContent" ∷ text "isError" ∷ text "_meta" ∷ [])
        envelope
      ≡ true
  pub no_error :
      (at (text "isError") envelope ≡ none) ⊎ (at (text "isError") envelope ≡ some (boolean false))
  pub block : Json
  pub content : at (text "content") envelope ≡ some (array (cons block nil))
  pub says : TextBlock (some block) raw
  pub structured : Members
  pub structure : at (text "structuredContent") envelope ≡ some (object structured)
  pub one : length (keys_of structured) ≡ 1
  pub result : at (text "result") structured ≡ some (string raw)

is_false-cases : (v : Option Json) → is_false v ≡ true → (v ≡ none) ⊎ (v ≡ some (boolean false))
is_false-cases v h = ground (arith, h)

as_array-some : (v : Option Json) (xs : Items) → as_array v ≡ some xs → v ≡ some (array xs)
as_array-some v xs h = ground (arith, h)

none-block : (t : Text) → text_block none ≡ some t → ⊥
none-block t h = let b = text_block-TextBlock none t h in none-some b.value

only_block :
    (xs : Items) (t : Text)
    → text_block (only_of xs) ≡ some t
    → (b : Json) × (xs ≡ cons b nil) × TextBlock (some b) t
only_block nil t h = absurd (none-block t h)
only_block (cons b nil) t h = (b, refl, text_block-TextBlock (some b) t h)
only_block (cons b (cons c xs)) t h = absurd (none-block t h)

first_block :
    (xs : Items) (t : Text)
    → text_block (first_of xs) ≡ some t
    → (b : Json) × (rest : Items) × (xs ≡ cons b rest) × TextBlock (some b) t
first_block nil t h = absurd (none-block t h)
first_block (cons b rest) t h = (b, rest, refl, text_block-TextBlock (some b) t h)

envelope_text-Enveloped :
    (envelope : Members) (raw : Text) → envelope_text envelope ≡ some raw → Enveloped envelope raw
unfolding envelope_text exact_keys
envelope_text-Enveloped envelope raw h =
    let (c, h₁) = guard-some _ _ h in
    let (known, fine) = and-true _ (is_false (at (text "isError") envelope)) c in
    let (xs, p, h₂) = bind-some (as_array (at (text "content") envelope)) _ h₁ in
    let (shown, q, h₃) = bind-some (text_block (only_of xs)) _ h₂ in
    let (ms, r, h₄) = bind-some (as_object (at (text "structuredContent") envelope)) _ h₃ in
    let (d, h₅) = guard-some _ _ h₄ in
    let (one, there) = and-true (length (keys_of ms) == 1) _ d in
    let (t, u, h₆) = bind-some (as_text (at (text "result") ms)) _ h₅ in
    let (same, h₇) = guard-some (text_eq shown t) _ h₆ in
    let t_is_raw = some-injective h₇ in
    let (block, only, says) = only_block xs shown q in
    record {
      known_keys = known;
      no_error = is_false-cases (at (text "isError") envelope) fine;
      block = block;
      content = as_array-some (at (text "content") envelope) xs p ∙ ap (λ z. some (array z)) only;
      says = subst (TextBlock (some block)) ((text_eq_iff shown t).0 same ∙ t_is_raw) says;
      structured = ms;
      structure = as_object-some (at (text "structuredContent") envelope) ms r;
      one = (==_iff (length (keys_of ms)) 1).0 one;
      result = as_text-some (at (text "result") ms) t u ∙ ap (λ z. some (string z)) t_is_raw;
    }

-- A message counts as confirmed only by a result without an error, an adapter's error or an output
-- guard, of this tool from the controller's own server. Its retained envelope has no error either and
-- gives one string of 2 to 4096 bytes, twice: as its one block and as its structured content. The
-- visible result begins with a block of that string, and the string parses to exactly `success`, which
-- is true, and this message's id.
pub confirmed_message_needs :
    (parse : Text → Option Json) (e : ToolResult) (tool id : Text)
    → confirmed_message parse e tool ≡ some id
    → (envelope : Members) × (raw : Text) × (first : Json) × (rest : Items) × Retained e tool
        envelope
      × Enveloped envelope raw
      × (e.content ≡ some (array (cons first rest)))
      × TextBlock (some first) raw
      × (2 ≤ utf8_length false raw)
      × (utf8_length false raw ≤ 4096)
      × Payload (parse raw) id
unfolding confirmed_message
confirmed_message_needs parse e tool id h =
    let (envelope, p, h₁) = bind-some (retained e tool) _ h in
    let (raw, q, h₂) = bind-some (envelope_text envelope) _ h₁ in
    let (xs, r, h₃) = bind-some (as_array e.content) _ h₂ in
    let (shown, s, h₄) = bind-some (text_block (first_of xs)) _ h₃ in
    let (c, h₅) = guard-some _ _ h₄ in
    let (c₁, short) = and-true _ (leb (utf8_length false raw) 4096) c in
    let (same, long) = and-true (text_eq shown raw) _ c₁ in
    let (first, rest, begins, says) = first_block xs shown s in
    (
      envelope,
      raw,
      first,
      rest,
      retained-Retained e tool envelope p,
      envelope_text-Enveloped envelope raw q,
      as_array-some e.content xs r ∙ ap (λ z. some (array z)) begins,
      subst (TextBlock (some first)) ((text_eq_iff shown raw).0 same) says,
      (leb_iff 2 (utf8_length false raw)).0 long,
      (leb_iff (utf8_length false raw) 4096).0 short,
      payload_message-Payload (parse raw) id h₅,
    )
