-- ===== src/Scheduler/Machine.antt =====
-- scheduler/chat-worker.ts: the variables of `runChatWorker`, and its `await`. While the worker waits
-- for an answer, the renewal loop runs: it may renew the ownership of the work and note its loss.
use whats_app_mcp_server.Base.{Bool, true, false, ◌||◌, Option, none, some, List, ◌∷◌}
use whats_app_mcp_server.Domain.Errors.{Result, ok, err, ErrorClass}
use whats_app_mcp_server.Domain.Pauses.{PauseReason}
use whats_app_mcp_server.Scheduler.Work.{Ownership, ClaimedWork, SessionBinding}

-- What the worker does, as seen from outside. `gated` is a successful `context.current()`; `found`
-- is a completion marker of the event that is there already, `recognised` an own message whose tool
-- call is confirmed; `asked` is any other call.
pub data Act : Type 0 where
  gated asked found recognised opened began prompted appended completed paused : Act

-- The world outside, the variables `work`, `lost`, `session` and `reason`, and what was done, the
-- latest first.
pub record State (W : Type 0) : Type 0 where
  pub world : W
  pub work : ClaimedWork
  pub lost : Bool
  pub session : Option SessionBinding
  pub reason : PauseReason
  pub trace : List Act

abbrev pub Run : Type 0 → Type 0 → Type 0
Run W A = State W → State W × Result A

-- What the renewal loop did meanwhile: the ownership that it renewed, and whether it noted a loss.
pub record Meanwhile (W : Type 0) : Type 0 where
  pub world : W
  pub renewed : Option Ownership
  pub lost : Bool

abbrev with_ownership : ClaimedWork → Option Ownership → ClaimedWork
with_ownership w none = w
with_ownership w (some o) = record w { ownership = o }

module _ {W : Type 0} where
  infixl 5 ◌>>=◌ ◌>>◌
  -- A function that throws ends there.
  unfoldable pub ◌>>=◌ : {A B : Type 0} → Run W A → (A → Run W B) → Run W B
  (m >>= f) s = let (t, r) = m s in elim r [ ok a ↦ f a t | err e ↦ (t, err e) ]

  abbrev pub ◌>>◌ : {A B : Type 0} → Run W A → Run W B → Run W B
  m >> k = m >>= λ _. k

  unfoldable pub done : {A : Type 0} → A → Run W A
  done a s = (s, ok a)

  unfoldable pub throw : {A : Type 0} → ErrorClass → Run W A
  throw e s = (s, err e)

  unfoldable pub check : Bool → ErrorClass → Run W (Unit {0})
  unfolding done throw
  check true e = done tt
  check false e = throw e

  unfoldable pub note : Act → Run W (Unit {0})
  note a s = (record s { trace = a ∷ s.trace }, ok tt)

  unfoldable pub reads : {A : Type 0} → (State W → A) → Run W A
  reads f s = (s, ok (f s))

  unfoldable pub modify : (State W → State W) → Run W (Unit {0})
  modify f s = (f s, ok tt)

  -- A call to the world: its answer, the act that it is by its answer, and what the renewal loop did
  -- until the answer came.
  unfoldable pub await :
      {A : Type 0} → (W → Meanwhile W) → (Result A → Act) → (State W → W × Result A) → Run W A
  await renewal act call s =
      let (w, answer) = call s in
      let m = renewal w in
      (
        record s {
          world = m.world;
          work = with_ownership s.work m.renewed;
          lost = s.lost || m.lost;
          trace = act answer ∷ s.trace;
        },
        answer,
      )
