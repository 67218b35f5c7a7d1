-- ===== src/Scheduler/Turns.antt =====
-- `runChatWorker` of scheduler/chat-worker.ts: what holds of every run, whatever the world answers.
use whats_app_mcp_server.Base.{
  Bool, true, false, some, List, ◌∷◌, ◌++◌, ◌≡◌, ◌⊎◌, refl, arith, subst, Option-cases,
  if◌then◌else◌, inl, inr,
}
use whats_app_mcp_server.Domain.Errors.{ErrorClass, Result, ok, err}
use whats_app_mcp_server.Scheduler.Work.{ClaimedWork}
use whats_app_mcp_server.Scheduler.Machine.{
  Act, gated, found, opened, began, prompted, completed, paused, State, await, ◌>>=◌,
}
use whats_app_mcp_server.Scheduler.Worker.{
  attempt, abandon, work_off, run_chat_worker, initial, pausing, close, reason_of,
}
use whats_app_mcp_server.Scheduler.Ownership.{Ports, act, current, is_current}
use whats_app_mcp_server.Scheduler.Protocol.{
  Place, Phase, finished, stopped, step, place, is_pausable, At, AtGate, Safe, Outcome,
}
use whats_app_mcp_server.Scheduler.Course.{attempt-Leads}
use whats_app_mcp_server.Scheduler.Gating.{current-AtGate}
use whats_app_mcp_server.Scheduler.Memory.{
  has, is_effect, place-effect, place-prompted, place-found, place-completed, place-paused,
}

step_paused : (ph : Phase) → is_pausable ph ≡ true → step (ph, true) paused ≡ some (stopped, false)
unfolding step
step_paused ph h = ground arith

module _ {W : Type 0} (p : Ports W) where
  -- A pause was asked for, or the worker has thrown before.
  abbrev Stops : State W × Result Bool → Type 0
  Stops (t, r) = At stopped t ⊎ Safe t × ((e : ErrorClass) × (r ≡ err e))

  pause-Stops :
      (ph : Phase) (x : State W × Result (Unit {0}))
      → is_pausable ph ≡ true
      → Outcome (λ _. AtGate ph) x
      → Stops
          (((λ (s : State W). x) >>= λ _. act p paused λ t. p.pause t.world t.work t.reason) x.0)
  unfolding ◌>>=◌ await place
  pause-Stops ph (t, ok a) h g = inl (false, grind (arith, g, step_paused ph h))
  pause-Stops ph (t, err e) h g = inr (g, (e, refl))

  pausing-Stops : (ph : Phase) (s : State W) → is_pausable ph ≡ true → At ph s → Stops (pausing p s)
  unfolding ◌>>=◌
  pausing-Stops ph s h a = pause-Stops ph (current p s) h ((current-AtGate p h).outcome s a)

  -- How a worker leaves its event.
  abbrev Left : State W → Type 0
  Left t =
      At finished t ⊎ At stopped t ⊎ Safe t × ((t.lost ≡ true) ⊎ (p.app_current t.world ≡ false))

  stopped-Left :
      (x : State W × Result Bool)
      → Stops x
      → Left (elim x.1 [ ok _ ↦ x.0 | err _ ↦ record (x.0) { lost = true } ])
  stopped-Left (t, ok b) (inl a) = inr (inl a)
  stopped-Left (t, ok b) (inr (q, (e, differs))) = cc
  stopped-Left (t, err e) (inl a) = inr (inl a)
  stopped-Left (t, err e) (inr (q, f)) = inr (inr (q, inl refl))

  choose-Left :
      (b : Bool) (t s : State W)
      → (b ≡ true → Left t)
      → (b ≡ false → Left s)
      → Left (if b then t else s)
  choose-Left true t s h k = h refl
  choose-Left false t s h k = k refl

  abandon-Left : (e : ErrorClass) (s : State W) → Safe s → Left (abandon p e s)
  unfolding abandon
  abandon-Left e s (ph, a, h) =
      let r = record s { reason = reason_of e s.reason } in
      choose-Left (is_current p r) _ r
        (λ alive. stopped-Left (pausing p r) (pausing-Stops ph r h a))
        (λ gone. inr (inr ((ph, a, h), ground (arith, gone))))

  ended-Left :
      (x : State W × Result (Unit {0}))
      → Outcome (λ _. At finished) x
      → Left (elim x.1 [ ok _ ↦ x.0 | err e ↦ abandon p e x.0 ])
  ended-Left (t, ok a) q = inl q
  ended-Left (t, err e) q = abandon-Left e t q

  work_off-Left : (w : W) (work : ClaimedWork) → Left (work_off p (initial p w work))
  unfolding work_off place
  work_off-Left w work =
      ended-Left (attempt p (initial p w work))
        ((attempt-Leads p).outcome (initial p w work) (false, refl))

  Left-place : (t : State W) → Left t → (x : Place) × (place t.trace ≡ some x)
  Left-place t (inl (g, e)) = ((finished, g), e)
  Left-place t (inr (inl (g, e))) = ((stopped, g), e)
  Left-place t (inr (inr ((ph, (g, e), h), k))) = ((ph, g), e)

  -- The place after the session is disposed of.
  close-place :
      (s : State W) (x : Place)
      → place s.trace ≡ some x
      → (y : Place) × (place (close p s).trace ≡ some y)
  unfolding await place step
  close-place s (ph, g) e = elim (Option-cases s.session) [
    | inl none_open ↦ ((ph, g), ground (arith, none_open))
    | inr (b, one) ↦ ((ph, false), ground (arith, one))
  ]

  worker-place :
      (w : W) (work : ClaimedWork) → (x : Place) × (place (run_chat_worker p w work).trace ≡ some x)
  unfolding run_chat_worker
  worker-place w work =
      let t = work_off p (initial p w work) in
      let (x, e) = Left-place t (work_off-Left w work) in close-place t x e

  -- Whatever the world answers, each effect of a worker (opening a session, beginning a turn,
  -- prompting, appending a marker, completing, pausing) comes right after a successful `current`:
  -- no other call of the worker stands between.
  pub effects_gated :
      (w : W) (work : ClaimedWork) (later l : List Act) (a : Act)
      → is_effect a ≡ true
      → (run_chat_worker p w work).trace ≡ later ++ a ∷ l
      → (earlier : List Act) × (l ≡ gated ∷ earlier)
  effects_gated w work later l a effect e =
      let (x, h) = worker-place w work in
      place-effect later l a x effect (subst (λ t. place t ≡ some x) e h)

  -- Whatever the world answers, a prompt comes after the turn has begun in Redis, no prompt came
  -- before it, and no completion marker of the event was found.
  pub prompted_once :
      (w : W) (work : ClaimedWork) (later l : List Act)
      → (run_chat_worker p w work).trace ≡ later ++ prompted ∷ l
      → (has began l ≡ true) × (has prompted l ≡ false) × (has found l ≡ false)
  prompted_once w work later l e =
      let (x, h) = worker-place w work in
      place-prompted later l x (subst (λ t. place t ≡ some x) e h)

  -- A worker that finds a completion marker of its event opens no session and prompts nothing; and
  -- no worker both completes its event and pauses the chat.
  pub found_not_prompted :
      (w : W) (work : ClaimedWork)
      → let l = (run_chat_worker p w work).trace in
        ((has found l ≡ false) ⊎ (has opened l ≡ false) × (has prompted l ≡ false))
        × ((has completed l ≡ false) ⊎ (has paused l ≡ false))
  found_not_prompted w work = let (x, h) = worker-place w work in place-found _ x h

  -- A worker leaves its event completed, or has asked for a pause of the chat, or has noted the loss
  -- of the lease, or ends under an application that is no longer current: it never just stops.
  pub worker_disposes :
      (w : W) (work : ClaimedWork)
      → let t = work_off p (initial p w work) in
        (has completed t.trace ≡ true)
        ⊎ (has paused t.trace ≡ true)
        ⊎ (t.lost ≡ true)
        ⊎ (p.app_current t.world ≡ false)
  worker_disposes w work = elim (work_off-Left w work) [
    | inl (g, e) ↦ inl (place-completed _ g e)
    | inr (inl (g, e)) ↦ inr (inl (place-paused _ g e))
    | inr (inr (q, h)) ↦ inr (inr h)
  ]
