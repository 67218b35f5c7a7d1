-- ===== src/Tests/Workers.antt =====
-- A worker whose world answers everything with success: it counts the calls.
use whats_app_mcp_server.Base.{
  ℕ, ◌+◌, true, false, none, some, List, [], ◌∷◌, ◌++◌, ◌≡◌, ◌⊎◌, refl, text, text_eq,
}
use whats_app_mcp_server.Domain.Errors.{ok}
use whats_app_mcp_server.Domain.Fingerprint.{fingerprint_event}
use whats_app_mcp_server.Scheduler.Work.{
  ClaimedWork, Fence, Ownership, SessionBinding, CompletionMarker, turn, fresh, manual,
}
use whats_app_mcp_server.Scheduler.Machine.{
  Act, gated, asked, opened, began, prompted, appended, completed, paused, found, await, check,
  reads, modify, note, done, throw, ◌>>=◌,
}
use whats_app_mcp_server.Scheduler.Worker.{
  run_chat_worker, work_off, initial, attempt, serve, go_on, examine, open_chat, take_turn,
  run_prompt, mark,
}
use whats_app_mcp_server.Scheduler.Ownership.{Ports, pure, complete_work, current}
use whats_app_mcp_server.Domain.Events.{check_notification}
use whats_app_mcp_server.Domain.Patterns.{
  is_opaque_id, is_group_jid, is_participant_jid, is_jid, behind_digits,
}
use whats_app_mcp_server.Intake.Timestamp.{is_timestamp, scan}
use whats_app_mcp_server.Scheduler.Memory.{has}
use whats_app_mcp_server.Scheduler.Turns.{
  effects_gated, prompted_once, found_not_prompted, worker_disposes,
}
use whats_app_mcp_server.Tests.Webhook.{message}

abbrev pub fence : Fence
fence = record { owner = text "o"; epoch = text "1"; expires_at = 9 }

abbrev ownership : Ownership
ownership = record { app = fence; chat = fence }

abbrev pub work : ClaimedWork
work = record { stream_id = text "1-0"; event = message; ownership = ownership }

abbrev session : SessionBinding
session = record {
  canonical_chat_id = message.canonical_chat_jid;
  session_id = text "s";
  session_file = text "f";
}

abbrev marker : CompletionMarker
marker = record {
  event_id = message.event_id;
  event_fingerprint = [];
  canonical_chat_id = message.canonical_chat_jid;
  chat_sequence = 1;
  completion = turn;
  completed_at = [];
  confirmed_sends = [];
}

abbrev ports : Ports ℕ
ports = record {
  renewal = λ n. record { world = n; renewed = none; lost = false };
  app_current = λ _. true;
  lease_ms = 3000;
  renew = λ n w ms. (n + 1, ok (some ownership));
  check_work = λ n w. (n + 1, ok true);
  read_chat = λ n c. (n + 1, ok (record { last_completed = 0; session = none; pause = none }));
  find_event = λ n c e. (n + 1, ok none);
  own_mutation = none;
  turn_state = λ n w. (n + 1, ok fresh);
  classify_own = λ n c j m. (n + 1, ok manual);
  open_session = λ n w b. (n + 1, ok session);
  bind_session = λ n w b. (n + 1, ok true);
  attach = none;
  prepare = λ n b. (n + 1, ok none);
  begin_turn = λ n w. (n + 1, ok true);
  instructions = λ w. [];
  prompt = λ n b e t. (n + 1, ok tt);
  after_prompt = λ n b d. (n + 1, ok tt);
  confirmed_sends = λ n. (n + 1, ok []);
  sha256 = λ t. [];
  time_text = λ n. [];
  append_completion =
      λ n b m. (n + 1, ok (record { marker = marker; entry_id = text "e"; session = session }));
  complete = λ n w p. (n + 1, ok true);
  pause = λ n w r. (n + 1, ok true);
  dispose = λ n b. (n + 1, ok tt);
}

abbrev acts : List Act
acts = (run_chat_worker ports 0 work).trace

abbrev later : List Act
later =
    asked ∷ completed ∷ gated ∷ asked ∷ asked ∷ appended ∷ gated ∷ asked ∷ asked ∷ asked ∷ gated
    ∷ asked ∷ asked ∷ asked ∷ gated ∷ asked ∷ asked ∷ []

abbrev prepared : List Act
prepared =
    asked ∷ asked ∷ gated ∷ asked ∷ asked ∷ began ∷ gated ∷ asked ∷ asked ∷ asked ∷ gated ∷ asked
    ∷ asked ∷ gated ∷ asked ∷ asked ∷ gated ∷ asked ∷ asked ∷ asked ∷ gated ∷ asked ∷ asked ∷ opened
    ∷ gated ∷ asked ∷ asked ∷ asked ∷ asked ∷ asked ∷ gated ∷ asked ∷ asked ∷ []

-- The whole run: gate, open, begin, prompt, append, complete.
worker_runs : acts ≡ later ++ prompted ∷ gated ∷ prepared
unfolding run_chat_worker work_off attempt serve go_on examine open_chat take_turn run_prompt mark
    complete_work current pure await check reads modify note done throw ◌>>=◌ fingerprint_event
    check_notification is_timestamp scan is_opaque_id is_group_jid is_participant_jid is_jid
    behind_digits text_eq
worker_runs = refl

prompted_once_example :
    (has began (gated ∷ prepared) ≡ true)
    × (has prompted (gated ∷ prepared) ≡ false)
    × (has found (gated ∷ prepared) ≡ false)
prompted_once_example = prompted_once ports 0 work later (gated ∷ prepared) worker_runs

effects_gated_example : (earlier : List Act) × (gated ∷ prepared ≡ gated ∷ earlier)
effects_gated_example =
    effects_gated ports 0 work later (gated ∷ prepared) prompted refl worker_runs

found_not_prompted_example :
    ((has found acts ≡ false) ⊎ (has opened acts ≡ false) × (has prompted acts ≡ false))
    × ((has completed acts ≡ false) ⊎ (has paused acts ≡ false))
found_not_prompted_example = found_not_prompted ports 0 work

worker_disposes_example :
    let t = work_off ports (initial ports 0 work) in
    (has completed t.trace ≡ true)
    ⊎ (has paused t.trace ≡ true)
    ⊎ (t.lost ≡ true)
    ⊎ (ports.app_current t.world ≡ false)
worker_disposes_example = worker_disposes ports 0 work
