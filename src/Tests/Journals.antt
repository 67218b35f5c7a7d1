-- ===== src/Tests/Journals.antt =====
-- A turn that sends one message, which the tool's result confirms.
use whats_app_mcp_server.Base.{
  ◌≡◌, refl, true, false, none, some, [], ◌∷◌, Option, List, ◌≤◌, Text, text, text_eq,
  if◌then◌else◌, ◌==◌, ℕ, lookup, insert, remove,
}
use whats_app_mcp_server.Json.{
  Json, string, boolean, object, array, Items, member, end, cons, nil, Members, at, keys_of,
}
use whats_app_mcp_server.Domain.Errors.{ok, err, mutation_uncertain}
use whats_app_mcp_server.Domain.Mutations.{MutationState, attempting, confirmed}
use whats_app_mcp_server.Domain.Patterns.{
  is_opaque_id, is_chat_jid, is_group_jid, is_jid, behind_digits,
}
use whats_app_mcp_server.Domain.Schemas.{closed_object}
use whats_app_mcp_server.Intake.Payload.{includes, utf8_length}
use whats_app_mcp_server.Intake.Timestamp.{is_timestamp, scan, days_of, is_leap}
use whats_app_mcp_server.Scheduler.Work.{Ownership, SessionBinding}
use whats_app_mcp_server.Journal.Arguments.{
  tool_of, find_tool, permits_attribution, mutation_destination, chat_field, only_digits,
  adapter_server,
}
use whats_app_mcp_server.Journal.Confirmation.{
  ToolResult, exact_keys, within_depth, text_block, envelope_text, payload_message, retained,
  confirmed_message,
}
use whats_app_mcp_server.Journal.Evidence.{
  Retained, Enveloped, TextBlock, Payload, confirmed_message_needs,
}
use whats_app_mcp_server.Journal.Live.{
  Awaited, World, after, give, ensure, observe, modify, await_call, ask_granted, pass_gate,
  record_state,
}
use whats_app_mcp_server.Journal.Hooks.{
  ToolCall, passes, is_from_adapter, is_attempt, end_hook, start_call, close_call, begin_attempt,
  admit_call, tool_call, confirm_attempt, take_result, tool_result, blocked,
}
use whats_app_mcp_server.Journal.Turn.{
  Step, tool_calls, tool_results, perform, run_turn, run_body, after_prompt, end_turn, close_run,
}
use whats_app_mcp_server.Journal.Begun.{Begun, tool_call-Begun}
use whats_app_mcp_server.Journal.Matching.{Matched, open_calls}
use whats_app_mcp_server.Journal.Settled.{Settled, run_turn-Settled}
use whats_app_mcp_server.Journal.Poison.{poison_blocks}
use whats_app_mcp_server.Tests.Webhook.{message}

abbrev id : Text
id = text "0123456789abcdef0123456789abcdef"

abbrev ownership : Ownership
ownership = record {
  app = record { owner = id; epoch = text "1"; expires_at = 9 };
  chat = record { owner = id; epoch = text "1"; expires_at = 9 };
}

abbrev session : SessionBinding
session = record {
  canonical_chat_id = text "12@g.us";
  session_id = text "s";
  session_file = text "/s/f.jsonl";
}

abbrev sent_attempt : MutationState
sent_attempt = record {
  attempt_id = id;
  event_id = id;
  canonical_chat_id = text "12@g.us";
  tool_call_id = text "k";
  tool = text "send_message";
  destination = text "12@g.us";
  started_at = text "2024-02-29T10:00:00Z";
  ownership = ownership;
  progress = attempting;
}

abbrev sent : MutationState
sent = record sent_attempt { progress = confirmed (text "M2") (text "2024-02-29T10:00:00Z") }

-- Every call resolves; the seventeenth lists the journal at the end of the turn.
abbrev answers : ℕ → Awaited
answers n = record {
  resolves = true;
  granted = true;
  journal = if n == 16 then sent ∷ [] else [];
  ownership = ownership;
  disturbed = false;
}

abbrev world : World
world = record {
  live = record {
    session = session;
    context = some message;
    running = false;
    poisoned = false;
    registered = true;
    calls = [];
  };
  ownership = ownership;
  effects = [];
  asked = 0;
}

abbrev begun_world : World
begun_world = record world { live = record world.live { running = true } }

abbrev poisoned_world : World
poisoned_world = record world { live = record world.live { poisoned = true } }

abbrev message_call : ToolCall
message_call = record {
  name = text "mcp__whatsapp_session_controller__send_message";
  id = text "k";
  input = member (text "to") (string (text "12@g.us")) end;
  matching = record { path = text "<inline:mcp>"; source = text "inline" } ∷ [];
  fresh_id = id;
  now = text "2024-02-29T10:00:00Z";
}

-- The documents are the text `R`.
abbrev parse : Text → Option Json
parse t =
    if text_eq t (text "R2")
    then some (
        object (
          member (text "success") (boolean true)
            (member (text "message_id") (string (text "M2")) end)))
    else none

abbrev block : Json
block =
    object
      (member (text "type") (string (text "text")) (member (text "text") (string (text "R2")) end))

abbrev envelope : Members
envelope = member (text "content") (array (cons block nil)) (
    member (text "structuredContent") (object (member (text "result") (string (text "R2")) end))
      end)

abbrev result : ToolResult
result = record {
  details = some (
      object (
        member (text "server") (string adapter_server) (
          member (text "tool") (string (text "send_message"))
            (member (text "mcpResult") (object envelope) end))));
  is_error = false;
  content = some (array (cons block nil));
}

known_tool : tool_of message_call.name ≡ some (text "send_message")
unfolding tool_of find_tool text_eq
known_tool = refl

poison_blocks_example :
    ((tool_call answers message_call poisoned_world).1 ≡ blocked)
    × ((tool_result answers parse message_call result poisoned_world).1 ≡ blocked)
    × ((perform answers parse (tool_calls message_call ∷ []) poisoned_world).effects ≡ [])
    × ((perform answers parse (tool_calls message_call ∷ []) poisoned_world).live.poisoned ≡ true)
    × (run_turn answers parse (tool_calls message_call ∷ []) none poisoned_world
        ≡ (poisoned_world, err mutation_uncertain))
poison_blocks_example =
    poison_blocks answers parse message_call result (text "send_message")
      (tool_calls message_call ∷ []) none poisoned_world known_tool refl

abbrev after_call : World
after_call = (tool_call answers message_call begun_world).0

tool_call_passes : tool_call answers message_call begun_world ≡ (after_call, passes)
unfolding after give ensure observe modify await_call ask_granted pass_gate record_state
    is_from_adapter is_attempt end_hook start_call begin_attempt admit_call tool_call tool_of
    find_tool permits_attribution mutation_destination chat_field only_digits lookup insert
    is_opaque_id is_chat_jid is_group_jid is_jid behind_digits includes is_timestamp scan days_of
    is_leap text_eq at
tool_call_passes = refl

tool_call-Begun_example : Begun message_call (text "send_message") begun_world after_call
tool_call-Begun_example =
    tool_call-Begun answers message_call (text "send_message") begun_world after_call known_tool
      tool_call_passes

confirmed_result : confirmed_message parse result (text "send_message") ≡ some (text "M2")
unfolding exact_keys within_depth text_block envelope_text payload_message retained
    confirmed_message closed_object includes utf8_length at keys_of text_eq
confirmed_result = refl

confirmed_message_needs_example :
    (ms : Members) × (raw : Text) × (first : Json) × (rest : Items) × Retained result
      (text "send_message")
      ms
    × Enveloped ms raw
    × (result.content ≡ some (array (cons first rest)))
    × TextBlock (some first) raw
    × (2 ≤ utf8_length false raw)
    × (utf8_length false raw ≤ 4096)
    × Payload (parse raw) (text "M2")
confirmed_message_needs_example =
    confirmed_message_needs parse result (text "send_message") (text "M2") confirmed_result

abbrev steps : List Step
steps = tool_calls message_call ∷ tool_results message_call result ∷ []

abbrev after_run : World
after_run = (run_turn answers parse steps none world).0

run_ends_well : run_turn answers parse steps none world ≡ (after_run, ok tt)
unfolding after give ensure observe modify await_call ask_granted pass_gate record_state
    is_from_adapter is_attempt end_hook start_call close_call begin_attempt admit_call tool_call
    confirm_attempt take_result tool_result perform run_turn run_body after_prompt end_turn
    close_run tool_of find_tool permits_attribution mutation_destination chat_field only_digits
    exact_keys within_depth text_block envelope_text payload_message retained confirmed_message
    closed_object utf8_length lookup insert remove is_opaque_id is_chat_jid is_group_jid is_jid
    behind_digits includes is_timestamp scan days_of is_leap text_eq at keys_of
run_ends_well = refl

nothing_begun : Matched world
unfolding Matched open_calls
nothing_begun = refl

run_turn-Settled_example : Settled answers world after_run × (after_run.live.running ≡ false)
run_turn-Settled_example =
    run_turn-Settled answers parse steps none world after_run nothing_begun run_ends_well
