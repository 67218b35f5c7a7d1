-- ===== src/Scheduler/Protocol.antt =====
-- scheduler/chat-worker.ts: the order of a worker's acts, as an automaton, and how the pieces of
-- `runChatWorker` move along it.
use whats_app_mcp_server.Base.{Bool, true, false, Option, none, some, List, [], ◌∷◌, ◌≡◌, refl, ap}
use whats_app_mcp_server.Domain.Errors.{ErrorClass, Result, ok, err}
use whats_app_mcp_server.Scheduler.Machine.{
  Act, gated, asked, found, recognised, opened, began, prompted, appended, completed, paused, State,
  Run, Meanwhile, ◌>>=◌, await, reads, modify, done, throw, check,
}
use whats_app_mcp_server.Scheduler.Ownership.{pure}

-- `settling`: a completion marker is there. `known`: the message is a confirmed call of a tool.
pub data Phase : Type 0 where
  idle settling known open_turn open_known ready answered marked finished stopped : Phase

-- A place in the protocol, and whether the last act was a successful `current`. Every effect needs
-- one right before it.
abbrev pub Place : Type 0
Place = Phase × Bool

abbrev move : Phase → Act → Option Phase
move idle found = some settling
move idle recognised = some known
move idle opened = some open_turn
move known opened = some open_known
move open_turn began = some ready
move ready prompted = some answered
move answered appended = some marked
move open_known appended = some marked
move settling completed = some finished
move marked completed = some finished
move finished paused = none
move stopped paused = none
move _ paused = some stopped
move _ _ = none

abbrev at_gate : Option Phase → Option Place
at_gate none = none
at_gate (some ph) = some (ph, false)

unfoldable pub step : Place → Act → Option Place
step (ph, g) gated = some (ph, true)
step (ph, g) asked = some (ph, false)
step (ph, g) found = at_gate (move ph found)
step (ph, g) recognised = at_gate (move ph recognised)
step (ph, true) a = at_gate (move ph a)
step (ph, false) a = none

-- The place that a trace, the latest act first, leads to; none if it breaks the protocol.
unfoldable pub place : List Act → Option Place
place [] = some (idle, false)
place (a ∷ before) = elim (place before) [ none ↦ none | some x ↦ step x a ]

-- A phase from which the chat can still be paused.
abbrev pub is_pausable : Phase → Bool
is_pausable finished = false
is_pausable stopped = false
is_pausable _ = true

module _ {W : Type 0} where
  abbrev pub At : Phase → State W → Type 0
  At ph s = (g : Bool) × (place s.trace ≡ some (ph, g))

  abbrev pub AtGate : Phase → State W → Type 0
  AtGate ph s = place s.trace ≡ some (ph, true)

  abbrev pub Safe : State W → Type 0
  Safe s = (ph : Phase) × At ph s × (is_pausable ph ≡ true)

  abbrev pub Outcome : {A : Type 0} → (A → State W → Type 0) → State W × Result A → Type 0
  Outcome Q (t, ok a) = Q a t
  Outcome Q (t, err e) = Safe t

  -- From `P`, a run ends in `Q`, or throws where the chat can still be paused.
  pub record Leads {A : Type 0} (P : State W → Type 0) (m : Run W A) (Q : A → State W → Type 0)
      : Type 0 where
    pub outcome : (s : State W) → P s → Outcome Q (m s)

  after :
      {A B : Type 0} (Q : A → State W → Type 0) (R : B → State W → Type 0) (f : A → Run W B)
      (x : State W × Result A)
      → Outcome Q x
      → ((a : A) → Leads (Q a) (f a) R)
      → Outcome R (((λ (s : State W). x) >>= f) x.0)
  unfolding ◌>>=◌
  after Q R f (t, ok a) q k = (k a).outcome t q
  after Q R f (t, err e) q k = q

  pub chain :
      {A B : Type 0} {P : State W → Type 0} {Q : A → State W → Type 0} {R : B → State W → Type 0}
      {m : Run W A} {f : A → Run W B}
      → Leads P m Q
      → ((a : A) → Leads (Q a) (f a) R)
      → Leads P (m >>= f) R
  unfolding ◌>>=◌
  chain {Q = Q} {R} {m} {f} h k = record { outcome = λ s q. after Q R f (m s) (h.outcome s q) k }

  pub reads-Leads :
      {A : Type 0} {P : State W → Type 0} (f : State W → A) → Leads P (reads f) (λ _. P)
  unfolding reads
  reads-Leads f = record { outcome = λ s q. q }

  pub modify-Leads :
      {P : State W → Type 0} (f : State W → State W)
      → ((s : State W) → P s → P (f s))
      → Leads P (modify f) (λ _. P)
  unfolding modify
  modify-Leads f h = record { outcome = h }

  pub done-Leads : {A : Type 0} {P : State W → Type 0} (a : A) → Leads P (done a) (λ _. P)
  unfolding done
  done-Leads a = record { outcome = λ s q. q }

  pub return-Leads : {A : Type 0} (Q : A → State W → Type 0) (a : A) → Leads (Q a) (done a) Q
  unfolding done
  return-Leads Q a = record { outcome = λ s q. q }

  pub throw-Leads :
      {A : Type 0} {ph : Phase} (e : ErrorClass) (Q : A → State W → Type 0)
      → is_pausable ph ≡ true
      → Leads (At ph) (throw e) Q
  unfolding throw
  throw-Leads {ph = ph} e Q h = record { outcome = λ s q. (ph, q, h) }

  pub check-Leads :
      {ph : Phase} (b : Bool) (e : ErrorClass)
      → is_pausable ph ≡ true
      → Leads (At ph) (check b e) (λ _. At ph)
  unfolding check
  check-Leads true e h = done-Leads _
  check-Leads false e h = throw-Leads e _ h

  pub pure-Leads :
      {A : Type 0} {ph : Phase} (r : Result A)
      → is_pausable ph ≡ true
      → Leads (At ph) (pure r) (λ _. At ph)
  unfolding pure done
  pure-Leads (ok a) h = done-Leads a
  pure-Leads {ph = ph} (err e) h = record { outcome = λ s q. (ph, q, h) }

  pub pure-AtGate :
      {A : Type 0} {ph : Phase} (r : Result A)
      → is_pausable ph ≡ true
      → Leads (AtGate ph) (pure r) (λ _. AtGate ph)
  unfolding pure done
  pure-AtGate (ok a) h = done-Leads a
  pure-AtGate {ph = ph} (err e) h = record { outcome = λ s q. (ph, (true, q), h) }

  ended :
      {A : Type 0} (Q : A → State W → Type 0) (t : State W) (r : Result A)
      → ((a : A) → r ≡ ok a → Q a t)
      → ((e : ErrorClass) → r ≡ err e → Safe t)
      → Outcome Q (t, r)
  ended Q t (ok a) h k = h a refl
  ended Q t (err e) h k = k e refl

  -- A call with its act: the trace that an answer leaves, and the one that an error leaves.
  pub await-Leads :
      {A : Type 0} {P : State W → Type 0} {Q : A → State W → Type 0} (renewal : W → Meanwhile W)
      (act : Result A → Act) (call : State W → W × Result A)
      → ((s t : State W) (a : A) → P s → t.trace ≡ act (ok a) ∷ s.trace → Q a t)
      → ((s t : State W) (e : ErrorClass) → P s → t.trace ≡ act (err e) ∷ s.trace → Safe t)
      → Leads P (await renewal act call) Q
  unfolding await
  await-Leads {Q = Q} renewal act call h k = record {
    outcome = λ s q.
        ended Q _ _ (λ a r. h s (await renewal act call s).0 a q (ap (λ x. act x ∷ s.trace) r))
          (λ e r. k s (await renewal act call s).0 e q (ap (λ x. act x ∷ s.trace) r));
  }

  -- A call that needs no gate.
  pub ask-Leads :
      {A : Type 0} {ph : Phase} (renewal : W → Meanwhile W) (call : State W → W × Result A)
      → is_pausable ph ≡ true
      → Leads (At ph) (await renewal (λ _. asked) call) (λ _. At ph)
  unfolding place step
  ask-Leads {ph = ph} renewal call h =
      await-Leads _ _ _ (λ s t a (g, e) q. (false, cc)) (λ s t a (g, e) q. (ph, (false, cc), h))

  -- An effect, which needs the gate.
  pub act-Leads :
      {A : Type 0} {ph next : Phase} (act : Act) (renewal : W → Meanwhile W)
      (call : State W → W × Result A)
      → is_pausable next ≡ true
      → step (ph, true) act ≡ some (next, false)
      → Leads (AtGate ph) (await renewal (λ _. act) call) (λ _. At next)
  unfolding place
  act-Leads {next = next} act renewal call h moved =
      await-Leads _ _ _ (λ s t a e q. (false, cc)) (λ s t a e q. (next, (false, cc), h))

  after_map :
      {A : Type 0} {Q R : A → State W → Type 0}
      → ((a : A) (s : State W) → Q a s → R a s)
      → (x : State W × Result A) → Outcome Q x
      → Outcome R x
  after_map h (t, ok a) q = h a t q
  after_map h (t, err e) q = q

  pub Leads-map :
      {A : Type 0} {P : State W → Type 0} {m : Run W A} {Q R : A → State W → Type 0}
      → Leads P m Q
      → ((a : A) (s : State W) → Q a s → R a s)
      → Leads P m R
  Leads-map l h = record { outcome = λ s q. after_map h _ (l.outcome s q) }
