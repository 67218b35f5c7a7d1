-- ===== src/Journal/Hooks.antt =====
-- The hooks of pi/tool-journal-extension.ts: `tool_call`, `tool_result` and `before_provider_request`.
use whats_app_mcp_server.Base.{
  ℕ, Bool, true, false, not, ◌&&◌, Option, none, some, List, [], ◌∷◌, if◌then◌else◌, is_some, Text,
  text, text_eq, lookup, insert, remove,
}
use whats_app_mcp_server.Json.{Json, Members}
use whats_app_mcp_server.Domain.Events.{Notification}
use whats_app_mcp_server.Domain.Patterns.{is_opaque_id, is_chat_jid}
use whats_app_mcp_server.Domain.Schemas.{within, is_epoch}
use whats_app_mcp_server.Domain.Mutations.{MutationState, attempting, confirmed, mutation_tools}
use whats_app_mcp_server.Intake.Payload.{includes}
use whats_app_mcp_server.Intake.Timestamp.{is_timestamp}
use whats_app_mcp_server.Scheduler.Work.{Fence, Ownership}
use whats_app_mcp_server.Journal.Arguments.{tool_of, permits_attribution, mutation_destination}
use whats_app_mcp_server.Journal.Confirmation.{ToolResult, confirmed_message}
use whats_app_mcp_server.Journal.Live.{
  begins, confirms, Awaited, World, Act, ◌>>=◌, ◌>>◌, give, ensure, observe, modify, poison_live,
  await_call, ask_granted, pass_gate, record_state, mark_uncertain, with_progress,
}

-- `sourceInfo` of a registered tool.
pub record SourceInfo : Type 0 where
  pub path : Text
  pub source : Text

-- The event of a call: the name of the tool, its id, its input, the registered tools of that name,
-- and the next id and time.
pub record ToolCall : Type 0 where
  pub name : Text
  pub id : Text
  pub input : Members
  pub matching : List SourceInfo
  pub fresh_id : Text
  pub now : Text

-- `MCP_ADAPTER_SOURCE_PATH`, and `verifySource`.
unfoldable pub is_from_adapter : List SourceInfo → Bool
is_from_adapter (i ∷ []) = text_eq i.path (text "<inline:mcp>") && text_eq i.source (text "inline")
is_from_adapter _ = false

-- `FenceSchema`, of a fence whose time is a whole number, and `MutationAttemptSchema`.
abbrev is_fence : Fence → Bool
is_fence f = is_opaque_id f.owner && is_epoch f.epoch

unfoldable pub is_attempt : MutationState → Bool
is_attempt s =
    is_opaque_id s.attempt_id
    && is_opaque_id s.event_id
    && is_chat_jid s.canonical_chat_id
    && within 1 512 s.tool_call_id
    && includes mutation_tools s.tool
    && is_chat_jid s.destination
    && is_timestamp s.started_at
    && is_fence s.ownership.app
    && is_fence s.ownership.chat

-- The attempt of a call.
abbrev pub attempt_of : ToolCall → Text → Text → Notification → Ownership → MutationState
attempt_of c tool to e o = record {
  attempt_id = c.fresh_id;
  event_id = e.event_id;
  canonical_chat_id = e.canonical_chat_jid;
  tool_call_id = c.id;
  tool = tool;
  destination = to;
  started_at = c.now;
  ownership = o;
  progress = attempting;
}

abbrev pub add_call : Text → MutationState → World → World
add_call id s w = record w { live = record w.live { calls = insert id s w.live.calls } }

abbrev pub drop_call : Text → World → World
drop_call id w = record w { live = record w.live { calls = remove id w.live.calls } }

-- What a hook answers: nothing, the denial of a policy, or that the outcome is uncertain; then it has
-- also aborted the session's run.
pub data HookVerdict : Type 0 where
  passes denied blocked : HookVerdict

abbrev pub verdict_of : Bool → HookVerdict
verdict_of true = passes
verdict_of false = denied

-- The `catch` of a hook, which poisons.
unfoldable pub end_hook : World × Option Bool → World × HookVerdict
end_hook (w, none) = (poison_live w, blocked)
end_hook (w, some b) = (w, verdict_of b)

module _ (answers : ℕ → Awaited) where
  -- `begin`, and the call is known from then on; `confirm`, and it is not.
  unfoldable pub start_call : Text → MutationState → Act (Unit {0})
  unfolding ask_granted modify
  start_call id s = do ask_granted answers (begins s); modify (add_call id s)

  unfoldable pub close_call : Text → MutationState → Text → Act (Unit {0})
  unfolding ask_granted pass_gate modify
  close_call id s m = do
    ask_granted answers (confirms s m)
    e ← pass_gate answers
    modify (drop_call id)

  -- The attempt is checked with the present ownership, and begun with the one it has then.
  unfoldable pub begin_attempt : ToolCall → Text → Text → Notification → Act Bool
  unfolding give ensure observe await_call start_call pass_gate record_state
  begin_attempt c tool to e = do
    o ← observe λ w. w.ownership
    ensure (is_attempt (attempt_of c tool to e o))
    a ← await_call answers
    let exact = attempt_of c tool to e a.ownership
    start_call c.id exact
    record_state answers exact
    f ← pass_gate answers
    give (some true)

  -- The action that `tool_call` puts into the queue: whether the call is allowed.
  unfoldable pub admit_call : ToolCall → Text → Act Bool
  unfolding give ensure observe pass_gate begin_attempt
  admit_call c tool = do
    e ← pass_gate answers
    ensure (is_from_adapter c.matching)
    known ← observe λ w. is_some (lookup c.id w.live.calls)
    ensure (not known)
    (if permits_attribution tool c.input e
        then (do to ← give (mutation_destination tool c.input); begin_attempt c tool to e)
        else give (some false))

  -- `tool_call`, for a session that is known.
  unfoldable pub tool_call : ToolCall → World → World × HookVerdict
  unfolding tool_of admit_call end_hook
  tool_call c w = elim (tool_of c.name) [
    | none ↦ (w, passes)
    | some t ↦ end_hook (admit_call c t w)
  ]

  -- The message is confirmed, or the attempt is uncertain and the hook fails.
  unfoldable pub confirm_attempt : Text → MutationState → Text → Option Text → Act Bool
  unfolding give await_call close_call record_state mark_uncertain
  confirm_attempt id s finished none = do mark_uncertain answers s; give none
  confirm_attempt id s finished (some m) = do
    record_state answers (with_progress (confirmed m finished) s)
    a ← await_call answers
    close_call id s m
    give (some true)

  -- The action that `tool_result` puts into the queue; `parse` is `JSON.parse`.
  unfoldable pub take_result : (Text → Option Json) → ToolCall → ToolResult → Text → Act Bool
  unfolding give ensure observe pass_gate confirm_attempt
  take_result parse c r tool = do
    e ← pass_gate answers
    found ← observe λ w. lookup c.id w.live.calls
    s ← give found
    to ← give (mutation_destination tool c.input)
    ensure (text_eq s.tool tool && text_eq to s.destination)
    confirm_attempt c.id s c.now (confirmed_message parse r tool)

  -- `tool_result`.
  unfoldable pub tool_result :
      (Text → Option Json) → ToolCall → ToolResult → World → World × HookVerdict
  unfolding tool_of take_result end_hook
  tool_result parse c r w = elim (tool_of c.name) [
    | none ↦ (w, passes)
    | some t ↦ end_hook (take_result parse c r t w)
  ]

-- `before_provider_request`: whether it aborts.
unfoldable pub aborts_request : World → Bool
aborts_request w = w.live.poisoned
