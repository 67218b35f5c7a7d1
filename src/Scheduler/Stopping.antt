-- ===== src/Scheduler/Stopping.antt =====
-- scheduler/coordinator.ts: a coordinator that is stopped, or has lost its lease, starts no worker.
use whats_app_mcp_server.Base.{
  ℕ, ◌+◌, ◌≤◌, ◌≡◌, true, false, Bool, none, ◌⊎◌, inl, refl, List, [], ◌∷◌, if◌then◌else◌, arith,
  Text,
}
use whats_app_mcp_server.Scheduler.Coordinator.{
  SchedulerConfig, Task, Coordinator, created, drop_task, Loop, recovering, claiming, Happening,
  task_ends, renews, fails_closed, stops, drains, recovers, recovery_failed, claims, claim_failed,
  claim_lost, recover, proceed, proceed_all,
}

-- The tasks that run a worker.
abbrev pub workers : List Task → ℕ
workers [] = 0
workers (t ∷ ts) = (if t.works then 1 else 0) + workers ts

workers-drop_task : (chat : Text) (ts : List Task) → workers (drop_task chat ts) ≤ workers ts
unfolding drop_task
workers-drop_task chat [] = ground arith
workers-drop_task chat (t ∷ ts) = ground (arith, workers-drop_task chat ts)

-- Stopped still, and with no more workers.
abbrev pub Quiet : Coordinator → Coordinator → Type 0
Quiet c d = (d.stopped ≡ true) × (workers d.active ≤ workers c.active)

-- What stops the coordinator, when the loop waits here.
abbrev pub ends : Happening → Loop → Bool
ends (renews none) l = true
ends fails_closed l = true
ends stops l = true
ends drains l = true
ends (recovers recovery_failed) (recovering chat i) = true
ends (claims claim_failed) (claiming chat i) = true
ends (claims claim_lost) (claiming chat i) = true
ends _ l = false

module _ (config : SchedulerConfig) (chats : List Text) where
  proceed-Quiet :
      (c : Coordinator) (h : Happening) → c.stopped ≡ true → Quiet c (proceed config chats c h)
  unfolding proceed recover
  proceed-Quiet c (task_ends chat) s = (s, workers-drop_task chat c.active)
  proceed-Quiet c _ s = ground arith

  -- A loss that has been reported has stopped the coordinator.
  abbrev Reported : Coordinator → Type 0
  Reported c = (c.loss_reported ≡ false) ⊎ (c.stopped ≡ true)

  proceed-Reported :
      (c : Coordinator) (h : Happening) → Reported c → Reported (proceed config chats c h)
  unfolding proceed recover
  proceed-Reported c h r = ground arith

  proceed_all-Reported :
      (c : Coordinator) (hs : List Happening)
      → Reported c
      → Reported (proceed_all config chats c hs)
  unfolding proceed_all
  proceed_all-Reported c [] r = r
  proceed_all-Reported c (h ∷ hs) r =
      proceed_all-Reported (proceed config chats c h) hs (proceed-Reported c h r)

  ends-stopped :
      (c : Coordinator) (h : Happening)
      → Reported c
      → ends h c.loop ≡ true
      → (proceed config chats c h).stopped ≡ true
  unfolding proceed recover
  ends-stopped c h r e = ground arith

  stopped-Quiet :
      (c : Coordinator) (hs : List Happening)
      → c.stopped ≡ true
      → Quiet c (proceed_all config chats c hs)
  unfolding proceed_all
  stopped-Quiet c [] s = ground arith
  stopped-Quiet c (h ∷ hs) s =
      let (still, fewer) = proceed-Quiet c h s in
      let (ever, least) = stopped-Quiet (proceed config chats c h) hs still in
      (ever, omega (arith, fewer, least))

  -- After any course from the creation, a stop, a drain, a failure that closes, a renewal that was
  -- refused, and a recovery or claim of the loop that threw or told that the lease is lost, stop the
  -- coordinator: it stays stopped, and whatever happens then, a lease that is granted late with it,
  -- starts no further worker.
  pub proceed_all-Quiet :
      (earlier : List Happening) (h : Happening) (later : List Happening)
      → ends h (proceed_all config chats created earlier).loop ≡ true
      → let c = proceed config chats (proceed_all config chats created earlier) h in
        (c.stopped ≡ true) × Quiet c (proceed_all config chats c later)
  proceed_all-Quiet earlier h later e =
      let c = proceed_all config chats created earlier in
      let halted = ends-stopped c h (proceed_all-Reported created earlier (inl refl)) e in
      (halted, stopped-Quiet (proceed config chats c h) later halted)
