-- ===== src/Journal/Turn.antt =====
-- `createToolJournal` of pi/tool-journal-extension.ts: the sessions that it knows, and a turn's
-- run.
use whats_app_mcp_server.Base.{
  ℕ, Bool, true, false, not, ◌&&◌, ◌||◌, Option, none, some, List, [], ◌∷◌, if◌then◌else◌, any,
  is_some, is_empty, Text, text_eq, Dict, lookup, insert, remove,
}
use whats_app_mcp_server.Json.{Json}
use whats_app_mcp_server.Domain.Errors.{
  ErrorClass, Result, ok, err, mutation_uncertain, session_failed,
}
use whats_app_mcp_server.Domain.Events.{Notification}
use whats_app_mcp_server.Domain.Mutations.{MutationState, is_confirmed}
use whats_app_mcp_server.Scheduler.Work.{SessionBinding, same_binding}
use whats_app_mcp_server.Journal.Confirmation.{ToolResult}
use whats_app_mcp_server.Journal.Live.{
  Live, Awaited, World, Act, ◌>>=◌, ◌>>◌, give, ensure, observe, modify, poison_live, await_call,
  pass_gate, mark_uncertain,
}
use whats_app_mcp_server.Journal.Hooks.{ToolCall, tool_call, tool_result}

-- `live`, by the session's id.
abbrev pub Lives : Type 0
Lives = Dict Live

-- `bind`; none throws, as in the others.
unfoldable pub bind_session : SessionBinding → Lives → Option Lives
bind_session b lives =
    if is_some (lookup b.session_id lives)
    then none
    else some (
        insert b.session_id
          (record {
            session = b;
            context = none;
            running = false;
            poisoned = false;
            registered = false;
            calls = [];
          })
          lives)

-- `get`.
unfoldable pub live_of : Lives → SessionBinding → Option Live
live_of lives b = elim (lookup b.session_id lives) [
  | none ↦ none
  | some l ↦ if same_binding l.session b then some l else none
]

-- `session_start`.
unfoldable pub register : Live → Live
register l = record l { registered = true }

-- `dispose`.
unfoldable pub dispose_session : SessionBinding → Lives → Option Lives
unfolding live_of
dispose_session b lives = elim (live_of lives b) [
  | none ↦ none
  | some l ↦ if l.running then none else some (remove b.session_id lives)
]

-- What the prompt makes of the hooks.
pub data Step : Type 0 where
  tool_calls : ToolCall → Step
  tool_results : ToolCall → ToolResult → Step

abbrev pub set_running : Bool → World → World
set_running b w = record w { live = record w.live { running = b } }

abbrev pub is_of_event : Text → MutationState → Bool
is_of_event event s = text_eq s.event_id event

-- `attempting` or `uncertain`.
abbrev pub is_open : MutationState → Bool
is_open s = not (is_confirmed s.progress)

abbrev pub is_settled_of : Text → MutationState → Bool
is_settled_of event s = is_of_event event s && is_confirmed s.progress

abbrev pub first_call : Dict MutationState → Option MutationState
first_call [] = none
first_call ((id, s) ∷ rest) = some s

-- The error of a failed prompt: its own class, if it has one and no send is confirmed.
abbrev pub failure_of : Bool → Option ErrorClass → ErrorClass
failure_of false (some e) = e
failure_of _ _ = session_failed

-- The `catch` and `finally` of `run`.
unfoldable pub close_run : World × Option (Result (Unit {0})) → World × Result (Unit {0})
close_run (w, none) = (set_running false (poison_live w), err mutation_uncertain)
close_run (w, some (err e)) = (set_running false (poison_live w), err e)
close_run (w, some (ok _)) = (set_running false w, ok tt)

module _ (answers : ℕ → Awaited) where
  -- `attach`.
  unfoldable pub attach_turn : SessionBinding → Notification → Act (Unit {0})
  unfolding ensure observe modify await_call
  attach_turn b e = do
    a ← await_call answers
    l ← observe λ w. w.live
    ensure (
        l.registered
        && not (is_some l.context)
        && not l.poisoned
        && text_eq e.canonical_chat_jid b.canonical_chat_id)
    modify λ w. record w { live = record w.live { context = some e } }

  module _ (parse : Text → Option Json) where
    unfoldable pub perform : List Step → World → World
    unfolding tool_call tool_result
    perform [] w = w
    perform (tool_calls c ∷ steps) w = perform steps (tool_call answers c w).0
    perform (tool_results c r ∷ steps) w = perform steps (tool_result answers parse c r w).0

    -- An attempt that is not settled: one call is marked, and the run fails.
    unfoldable pub give_up_open : Option MutationState → Act (Result (Unit {0}))
    unfolding give mark_uncertain
    give_up_open none = give none
    give_up_open (some s) = do mark_uncertain answers s; give none

    -- A prompt that ended well: the records of the chat are all confirmed, and of the event.
    unfoldable pub end_turn : Text → List MutationState → Act (Result (Unit {0}))
    unfolding give ensure pass_gate
    end_turn event later = do
      f ← pass_gate answers
      ensure (not (any (λ s. not (is_settled_of event s)) later))
      give (some (ok tt))

    unfoldable pub after_prompt :
        Text → Option (Option ErrorClass) → List MutationState → Act (Result (Unit {0}))
    unfolding give end_turn
    after_prompt event none later = end_turn event later
    after_prompt event (some failed) later =
        give (some (err (failure_of (any (is_settled_of event) later) failed)))

    -- The body of the `try`.
    unfoldable pub run_body : List Step → Option (Option ErrorClass) → Act (Result (Unit {0}))
    unfolding give ensure observe modify await_call pass_gate perform after_prompt give_up_open
    run_body steps failed = do
      e ← pass_gate answers
      prior ← await_call answers
      ensure (not (any (is_of_event e.event_id) prior.journal))
      modify (perform steps)
      later ← await_call answers
      active ← observe λ w. w.live.calls
      (if not (is_empty active) || any (λ s. is_of_event e.event_id s && is_open s) later.journal
          then give_up_open (first_call active)
          else after_prompt e.event_id failed later.journal)

    -- `run`, of a prompt that takes these steps and ends well or fails.
    unfoldable pub run_turn :
        List Step → Option (Option ErrorClass) → World → World × Result (Unit {0})
    unfolding run_body close_run
    run_turn steps failed w =
        if is_some w.live.context && not w.live.running && not w.live.poisoned
        then close_run (run_body steps failed (set_running true w))
        else (w, err mutation_uncertain)
