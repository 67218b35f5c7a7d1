-- ===== src/Scheduler/Tasks.antt =====
-- scheduler/coordinator.ts: how many workers run, and for which chats.
use whats_app_mcp_server.Base.{
  ◌≤◌, ◌<◌, ◌%◌, ◌≡◌, false, List, [], ◌∷◌, refl, arith, length, Text, Option-cases,
}
use whats_app_mcp_server.Scheduler.Coordinator.{
  SchedulerConfig, Loop, choosing, recovering, claiming, polling, ended, Task, Coordinator,
  has_task, drop_task, chat_at, Recovery, recovered, not_recovered, recovery_failed, ClaimResult,
  claimed, unclaimed, claim_lost, claim_failed, Happening, starts, acquires, chooses, recovers,
  claims, polled, task_ends, renews, fails_closed, stops, drains, choose, after_recovery,
  after_claim, after_poll, proceed, proceed_all,
}

-- Each chat has one task at most.
abbrev pub Distinct : List Task → Type 0
Distinct [] = Unit {0}
Distinct (t ∷ ts) = (has_task t.chat ts ≡ false) × Distinct ts

-- The chat that the loop waits for has no task, and there is room for one more.
abbrev pub Room : SchedulerConfig → List Task → Loop → Type 0
Room config ts (recovering chat i) = (has_task chat ts ≡ false) × (length ts < config.concurrency)
Room config ts (claiming chat i) = (has_task chat ts ≡ false) × (length ts < config.concurrency)
Room config ts _ = Unit {0}

pub record IsSound (config : SchedulerConfig) (c : Coordinator) : Type 0 where
  pub bounded : length c.active ≤ config.concurrency
  pub distinct : Distinct c.active
  pub room : Room config c.active c.loop

drop_task-length : (chat : Text) (ts : List Task) → length (drop_task chat ts) ≤ length ts
unfolding drop_task
drop_task-length chat [] = ground arith
drop_task-length chat (t ∷ ts) = ground (arith, drop_task-length chat ts)

has_task-drop_task :
    (chat other : Text) (ts : List Task)
    → has_task chat ts ≡ false
    → has_task chat (drop_task other ts) ≡ false
unfolding drop_task has_task
has_task-drop_task chat other [] h = refl
has_task-drop_task chat other (t ∷ ts) h = ground (arith, has_task-drop_task chat other ts)

drop_task-Distinct : (chat : Text) (ts : List Task) → Distinct ts → Distinct (drop_task chat ts)
unfolding drop_task
drop_task-Distinct chat [] d = tt
drop_task-Distinct chat (t ∷ ts) d =
    ground (arith, drop_task-Distinct chat ts, has_task-drop_task t.chat chat ts)

module _ (config : SchedulerConfig) (chats : List Text) where
  choose-IsSound :
      (c : Coordinator) (l : Loop) → IsSound config c → IsSound config (choose config chats c l)
  choose-IsSound c (choosing i) s =
      ground
        (arith, s.bounded, s.distinct, Option-cases (chat_at (c.position % length chats) chats))
  choose-IsSound c (recovering chat i) s = s
  choose-IsSound c (claiming chat i) s = s
  choose-IsSound c polling s = s
  choose-IsSound c ended s = s

  after_recovery-IsSound :
      (c : Coordinator) (r : Recovery) (l : Loop)
      → Room config c.active l
      → IsSound config c
      → IsSound config (after_recovery config chats c l r)
  after_recovery-IsSound c recovery_failed (recovering chat i) m s =
      ground (arith, s.bounded, s.distinct)
  after_recovery-IsSound c (recovered next deleted) (recovering chat i) m s =
      ground (arith, m, s.bounded, s.distinct)
  after_recovery-IsSound c not_recovered (recovering chat i) m s =
      ground (arith, m, s.bounded, s.distinct)
  after_recovery-IsSound c r (claiming chat i) m s = s
  after_recovery-IsSound c r (choosing i) m s = s
  after_recovery-IsSound c r polling m s = s
  after_recovery-IsSound c r ended m s = s

  after_claim-IsSound :
      (c : Coordinator) (r : ClaimResult) (l : Loop)
      → Room config c.active l
      → IsSound config c
      → IsSound config (after_claim config chats c l r)
  after_claim-IsSound c (claimed work) (claiming chat i) m s = record {
    bounded = omega (arith, m.1);
    distinct = (m.0, s.distinct);
    room = tt;
  }
  after_claim-IsSound c unclaimed (claiming chat i) m s = record {
    bounded = s.bounded;
    distinct = s.distinct;
    room = tt;
  }
  after_claim-IsSound c claim_lost (claiming chat i) m s = ground (arith, s.bounded, s.distinct)
  after_claim-IsSound c claim_failed (claiming chat i) m s = ground (arith, s.bounded, s.distinct)
  after_claim-IsSound c r (recovering chat i) m s = s
  after_claim-IsSound c r (choosing i) m s = s
  after_claim-IsSound c r polling m s = s
  after_claim-IsSound c r ended m s = s

  after_poll-IsSound :
      (c : Coordinator) (l : Loop) → IsSound config c → IsSound config (after_poll config chats c l)
  after_poll-IsSound c polling s = ground (arith, s.bounded, s.distinct)
  after_poll-IsSound c (choosing i) s = s
  after_poll-IsSound c (recovering chat i) s = s
  after_poll-IsSound c (claiming chat i) s = s
  after_poll-IsSound c ended s = s

  task_ends-Room :
      (chat : Text) (ts : List Task) (l : Loop)
      → Room config ts l
      → Room config (drop_task chat ts) l
  task_ends-Room chat ts (recovering other i) m =
      (has_task-drop_task other chat ts m.0, omega (arith, m.1, drop_task-length chat ts))
  task_ends-Room chat ts (claiming other i) m =
      (has_task-drop_task other chat ts m.0, omega (arith, m.1, drop_task-length chat ts))
  task_ends-Room chat ts (choosing i) m = tt
  task_ends-Room chat ts polling m = tt
  task_ends-Room chat ts ended m = tt

  proceed-IsSound :
      (c : Coordinator) (h : Happening)
      → IsSound config c
      → IsSound config (proceed config chats c h)
  unfolding proceed
  proceed-IsSound c starts s = ground (arith, s.bounded, s.distinct, s.room)
  proceed-IsSound c (acquires app) s = ground (arith, s.bounded, s.distinct, s.room)
  proceed-IsSound c chooses s = choose-IsSound c c.loop s
  proceed-IsSound c (recovers r) s = after_recovery-IsSound c r c.loop s.room s
  proceed-IsSound c (claims r) s = after_claim-IsSound c r c.loop s.room s
  proceed-IsSound c polled s = after_poll-IsSound c c.loop s
  proceed-IsSound c (task_ends chat) s = record {
    bounded = omega (arith, s.bounded, drop_task-length chat c.active);
    distinct = drop_task-Distinct chat c.active s.distinct;
    room = task_ends-Room chat c.active c.loop s.room;
  }
  proceed-IsSound c (renews app) s = ground (arith, s.bounded, s.distinct, s.room)
  proceed-IsSound c fails_closed s = ground (arith, s.bounded, s.distinct, s.room)
  proceed-IsSound c stops s = record { bounded = s.bounded; distinct = s.distinct; room = s.room }
  proceed-IsSound c drains s = ground (arith, s.bounded, s.distinct, s.room)

  -- However the pieces of the coordinator interleave, at most the configured number of tasks is
  -- active, each chat has at most one, and a chat that is waited for has none and finds room.
  pub proceed_all-IsSound :
      (c : Coordinator) (hs : List Happening)
      → IsSound config c
      → IsSound config (proceed_all config chats c hs)
  unfolding proceed_all
  proceed_all-IsSound c [] s = s
  proceed_all-IsSound c (h ∷ hs) s =
      proceed_all-IsSound (proceed config chats c h) hs (proceed-IsSound c h s)
