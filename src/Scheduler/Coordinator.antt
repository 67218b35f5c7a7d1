-- ===== src/Scheduler/Coordinator.antt =====
-- `createCoordinator` of scheduler/coordinator.ts and `createRecovery` of scheduler/recovery.ts. The
-- loop over the chats is cut where it waits; between the pieces workers end, the heartbeat answers,
-- and the coordinator is stopped.
use whats_app_mcp_server.Base.{
  ℕ, zero, suc, ◌+◌, ◌*◌, ◌%◌, Bool, true, false, not, ◌&&◌, ◌||◌, Option, none, some, List, [],
  ◌∷◌, ltb, leb, ◌==◌, if◌then◌else◌, length, is_some, Text, text_eq, Dict, insert,
}
use whats_app_mcp_server.Domain.Errors.{Result, config_invalid, require}
use whats_app_mcp_server.Scheduler.Work.{Fence, ClaimedWork}

pub record SchedulerConfig : Type 0 where
  pub concurrency : ℕ
  pub lease_ms : ℕ
  pub renew_ms : ℕ
  pub gap_timeout_ms : ℕ
  pub poll_ms : ℕ

-- The checks of `createCoordinator`, on natural numbers.
unfoldable pub check_config : SchedulerConfig → Result (Unit {0})
check_config c =
    require
      (leb 1 c.concurrency
        && leb c.concurrency 64
        && leb 3000 c.lease_ms
        && leb c.lease_ms 300000
        && leb 100 c.renew_ms
        && ltb (c.renew_ms * 3) c.lease_ms
        && leb 1000 c.gap_timeout_ms
        && leb c.gap_timeout_ms 3600000
        && leb 1 c.poll_ms
        && leb c.poll_ms 5000)
      config_invalid

-- Where the loop waits, with the `i` of its `for`: before the next chat, for the recovery of one, for
-- a claim on it, for the poll, or no more.
pub data Loop : Type 0 where
  choosing : ℕ → Loop
  recovering claiming : Text → ℕ → Loop
  polling ended : Loop

-- A task of `active`: its chat, and whether it runs a worker, or is a granted lease that drains.
pub record Task : Type 0 where
  pub chat : Text
  pub works : Bool

pub record Coordinator : Type 0 where
  pub app : Option Fence
  pub live : Bool
  pub started : Bool
  pub acquiring : Bool
  pub loss_reported : Bool
  pub stopped : Bool
  pub position : ℕ
  pub active : List Task
  pub cursors : Dict Text
  pub loop : Loop
  pub released : Bool

abbrev pub created : Coordinator
created = record {
  app = none;
  live = false;
  started = false;
  acquiring = false;
  loss_reported = false;
  stopped = false;
  position = 0;
  active = [];
  cursors = [];
  loop = ended;
  released = false;
}

-- `active.has(chat)`.
unfoldable pub has_task : Text → List Task → Bool
has_task chat [] = false
has_task chat (t ∷ ts) = text_eq t.chat chat || has_task chat ts

-- `active.delete(chat)`.
unfoldable pub drop_task : Text → List Task → List Task
drop_task chat [] = []
drop_task chat (t ∷ ts) =
    let rest = drop_task chat ts in if text_eq t.chat chat then rest else t ∷ rest

-- `chats[n]`.
unfoldable pub chat_at : ℕ → List Text → Option Text
chat_at n [] = none
chat_at zero (c ∷ cs) = some c
chat_at (suc n) (c ∷ cs) = chat_at n cs

-- What `recoverPending` answers; `recovery_failed` if it throws.
pub data Recovery : Type 0 where
  recovered : Text → ℕ → Recovery
  not_recovered recovery_failed : Recovery

-- What `claimNext` answers.
pub data ClaimResult : Type 0 where
  claimed : ClaimedWork → ClaimResult
  unclaimed claim_lost claim_failed : ClaimResult

pub data Happening : Type 0 where
  starts : Happening
  acquires : Option Fence → Happening
  chooses : Happening
  recovers : Recovery → Happening
  claims : ClaimResult → Happening
  polled : Happening
  task_ends : Text → Happening
  renews : Option Fence → Happening
  fails_closed stops drains : Happening

-- `lose()`: both loops are aborted, once.
abbrev pub lose_app : Coordinator → Coordinator
lose_app c =
    if c.loss_reported then c else record c { loss_reported = true; live = false; stopped = true }

-- `recovery(chat, …)`: the cursor of the chat moves, and whether nothing was deleted.
unfoldable pub recover : Dict Text → Text → Recovery → Dict Text × Bool
recover cursors chat (recovered next deleted) = (insert chat next cursors, deleted == 0)
recover cursors chat _ = (cursors, false)

abbrev pub goes_on : Coordinator → Bool
goes_on c = not c.stopped && c.live

module _ (config : SchedulerConfig) (chats : List Text) where
  -- `const chat = repository.chats[position++ % repository.chats.length]`.
  abbrev pub visit : Coordinator → ℕ → Option Text → Coordinator
  visit c i none = record c { position = c.position + 1; loop = choosing (i + 1) }
  visit c i (some chat) =
      if has_task chat c.active
      then record c { position = c.position + 1; loop = choosing (i + 1) }
      else record c { position = c.position + 1; loop = recovering chat i }

  abbrev pub choose : Coordinator → Loop → Coordinator
  choose c (choosing i) =
      if not (ltb i (length chats) && goes_on c) || leb config.concurrency (length c.active)
      then record c { loop = polling }
      else visit c i (chat_at (c.position % length chats) chats)
  choose c _ = c

  abbrev pub after_recovery : Coordinator → Loop → Recovery → Coordinator
  after_recovery c (recovering chat i) recovery_failed = record (lose_app c) { loop = ended }
  after_recovery c (recovering chat i) r =
      let (cursors, clean) = recover c.cursors chat r in
      let d = record c { cursors = cursors } in
      if not clean
      then record d { loop = choosing (i + 1) }
      else if not (goes_on d)
      then record d { loop = polling }
      else record d { loop = claiming chat i }
  after_recovery c _ r = c

  -- A lease that is granted after the stop is drained, and starts no worker.
  abbrev pub after_claim : Coordinator → Loop → ClaimResult → Coordinator
  after_claim c (claiming chat i) claim_failed = record (lose_app c) { loop = ended }
  after_claim c (claiming chat i) claim_lost = record (lose_app c) { loop = polling }
  after_claim c (claiming chat i) unclaimed = record c { loop = choosing (i + 1) }
  after_claim c (claiming chat i) (claimed work) = record c {
    active = record { chat = chat; works = goes_on c } ∷ c.active;
    loop = choosing (i + 1);
  }
  after_claim c _ r = c

  -- The poll ends at its time, or when the coordinator stops; then the `while` is tested.
  abbrev pub after_poll : Coordinator → Loop → Coordinator
  after_poll c polling =
      if goes_on c && is_some c.app
      then record c { loop = choosing 0 }
      else record c { loop = ended }
  after_poll c _ = c

  -- `start()`, up to the lease, and with the answer of `acquireApp`; none if it throws.
  abbrev pub start : Coordinator → Coordinator
  start c = if c.stopped || c.started then c else record c { started = true; acquiring = true }

  abbrev pub acquire : Coordinator → Option Fence → Bool → Coordinator
  acquire c app false = c
  acquire c none true = record c { acquiring = false; app = none }
  acquire c (some app) true =
      after_poll (record c { acquiring = false; app = some app; live = true }) polling

  abbrev pub renew_app : Coordinator → Option Fence → Coordinator
  renew_app c none = lose_app c
  renew_app c (some app) = record c { app = some app }

  -- The end of `drain`: the start is over, the loop has ended, and no task is active.
  abbrev pub finish_drain : Coordinator → Loop → List Task → Coordinator
  finish_drain c ended [] = record c {
    released = c.released || is_some c.app && c.live;
    live = false;
  }
  finish_drain c _ _ = c

  unfoldable pub proceed : Coordinator → Happening → Coordinator
  proceed c starts = start c
  proceed c (acquires app) = acquire c app c.acquiring
  proceed c chooses = choose c c.loop
  proceed c (recovers r) = after_recovery c c.loop r
  proceed c (claims r) = after_claim c c.loop r
  proceed c polled = after_poll c c.loop
  proceed c (task_ends chat) = record c { active = drop_task chat c.active }
  proceed c (renews app) = renew_app c app
  proceed c fails_closed = lose_app c
  proceed c stops = record c { stopped = true }
  proceed c drains = finish_drain (record c { stopped = true }) c.loop c.active

  unfoldable pub proceed_all : Coordinator → List Happening → Coordinator
  proceed_all c [] = c
  proceed_all c (h ∷ hs) = proceed_all (proceed c h) hs
