-- ===== src/Scheduler/Gating.antt =====
-- scheduler/chat-worker.ts: the check of the ownership in the protocol, and the effects behind it.
use whats_app_mcp_server.Base.{Bool, true, false, if◌then◌else◌, Option, none, some, ◌∷◌, ◌≡◌}
use whats_app_mcp_server.Domain.Errors.{ErrorClass, Result, ok}
use whats_app_mcp_server.Scheduler.Work.{Ownership, CompletionProof}
use whats_app_mcp_server.Scheduler.Machine.{Act, gated, completed, State, await, check, note}
use whats_app_mcp_server.Scheduler.Ownership.{Ports, current, complete_work, keep, lose, when}
use whats_app_mcp_server.Scheduler.Protocol.{
  Phase, finished, step, place, is_pausable, At, AtGate, Leads, chain, reads-Leads, modify-Leads,
  done-Leads, throw-Leads, check-Leads, await-Leads, ask-Leads, Leads-map,
}

module _ {W : Type 0} where
  -- After a call that answers with a truth value: the next place, or the same one.
  abbrev pub By : Phase → Phase → Bool → State W → Type 0
  By ph next true = At next
  By ph next false = At ph

  pub when-Leads :
      {ph next : Phase} (p : Ports W) (a : Act) (call : State W → W × Result Bool)
      → is_pausable ph ≡ true
      → step (ph, true) a ≡ some (next, false)
      → Leads (AtGate ph) (await p.renewal (when a) call) (By ph next)
  unfolding place step
  when-Leads {ph} {next} p a call h moved =
      await-Leads _ _ _
        (λ s t b.
          elim b as (λ b. AtGate ph s → t.trace ≡ when a (ok b) ∷ s.trace → By ph next b t) [
            | true ↦ λ e q. (false, cc)
            | false ↦ λ e q. (false, cc)
          ])
        (λ s t b e q. (ph, (false, cc), h))

  pub By-Leads :
      (ph : Phase) {next : Phase} (b : Bool) (e : ErrorClass)
      → is_pausable ph ≡ true
      → Leads (By ph next b) (check b e) (λ _. At next)
  unfolding check
  By-Leads ph true e h = done-Leads _
  By-Leads ph false e h = throw-Leads e _ h

module _ {W : Type 0} (p : Ports W) where
  pub lose-Leads :
      {ph : Phase} (Q : Unit {0} → State W → Type 0)
      → is_pausable ph ≡ true
      → Leads (At ph) (lose p) Q
  lose-Leads Q h = chain (modify-Leads _ λ s q. q) λ _. throw-Leads _ _ h

  keep-Leads :
      {ph : Phase} (r : Option Ownership) (still : Bool)
      → is_pausable ph ≡ true
      → Leads (At ph) (keep p r still) (λ _. At ph)
  keep-Leads none still h = lose-Leads _ h
  keep-Leads (some o) true h = modify-Leads _ λ s q. q
  keep-Leads (some o) false h = lose-Leads _ h

  last-Leads :
      {ph : Phase} (b : Bool)
      → is_pausable ph ≡ true
      → Leads (At ph) (if b then note gated else lose p) (λ _. AtGate ph)
  unfolding note place step
  last-Leads true h = record { outcome = λ s (g, e). cc }
  last-Leads false h = lose-Leads _ h

  pub current-AtGate :
      {ph : Phase} → is_pausable ph ≡ true → Leads (At ph) (current p) (λ _. AtGate ph)
  unfolding current
  current-AtGate h = chain (reads-Leads _) λ alive. chain (check-Leads _ _ h) λ _.
      chain (ask-Leads _ _ h) λ renewed. chain (reads-Leads _) λ still.
        chain (keep-Leads renewed still h)
          λ _. chain (ask-Leads _ _ h) λ checks. chain (reads-Leads _) λ app. last-Leads _ h

  pub current-Leads : {ph : Phase} → is_pausable ph ≡ true → Leads (At ph) (current p) (λ _. At ph)
  current-Leads h = Leads-map (current-AtGate h) λ _ s q. (true, q)

  pub complete_work-Leads :
      {ph : Phase} (proof : CompletionProof)
      → is_pausable ph ≡ true
      → step (ph, true) completed ≡ some (finished, false)
      → Leads (At ph) (complete_work p proof) (λ _. At finished)
  unfolding complete_work
  complete_work-Leads proof h moved =
      chain (current-AtGate h)
        λ _. chain (when-Leads p completed _ h moved) λ answer. By-Leads _ answer _ h
