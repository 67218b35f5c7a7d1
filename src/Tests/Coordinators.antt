-- ===== src/Tests/Coordinators.antt =====
-- A coordinator of two chats and one slot.
use whats_app_mcp_server.Base.{true, none, some, List, [], ◌∷◌, ◌≡◌, refl, arith, Text, text}
use whats_app_mcp_server.Scheduler.Coordinator.{
  SchedulerConfig, Coordinator, created, Happening, starts, acquires, chooses, recovers, recovered,
  claims, claimed, polled, renews, proceed_all, proceed, recover, has_task, chat_at,
}
use whats_app_mcp_server.Scheduler.Tasks.{IsSound, proceed_all-IsSound}
use whats_app_mcp_server.Scheduler.Stopping.{Quiet, proceed_all-Quiet}
use whats_app_mcp_server.Tests.Workers.{work, fence}

abbrev config : SchedulerConfig
config = record {
  concurrency = 1;
  lease_ms = 3000;
  renew_ms = 100;
  gap_timeout_ms = 1000;
  poll_ms = 1;
}

abbrev chats : List Text
chats = text "a" ∷ text "b" ∷ []

abbrev happenings : List Happening
happenings =
    starts
    ∷ acquires (some fence)
    ∷ chooses
    ∷ recovers (recovered (text "0-0") 0)
    ∷ claims (claimed work)
    ∷ chooses
    ∷ polled
    ∷ []

one_worker_runs :
    (proceed_all config chats created happenings).active
    ≡ record { chat = text "a"; works = true } ∷ []
unfolding proceed_all proceed recover has_task chat_at
one_worker_runs = refl

proceed_all-IsSound_example : IsSound config (proceed_all config chats created happenings)
proceed_all-IsSound_example =
    proceed_all-IsSound config chats created happenings
      (record { bounded = omega arith; distinct = tt; room = tt })

-- The lease is lost while a claim is awaited, and then the claim is granted.
abbrev claiming_course : List Happening
claiming_course =
    starts ∷ acquires (some fence) ∷ chooses ∷ recovers (recovered (text "0-0") 0) ∷ []

abbrev halted : Coordinator
halted = proceed config chats (proceed_all config chats created claiming_course) (renews none)

proceed_all-Quiet_example :
    (halted.stopped ≡ true)
    × Quiet halted (proceed_all config chats halted (claims (claimed work) ∷ []))
proceed_all-Quiet_example =
    proceed_all-Quiet config chats claiming_course (renews none) (claims (claimed work) ∷ []) refl
