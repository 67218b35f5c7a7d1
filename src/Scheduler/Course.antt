-- ===== src/Scheduler/Course.antt =====
-- scheduler/chat-worker.ts: the course of a worker through the protocol, piece by piece.
use whats_app_mcp_server.Base.{Bool, true, false, Option, none, some, List, ◌∷◌, ◌≡◌, refl, ℕ}
use whats_app_mcp_server.Domain.Errors.{Result, ok}
use whats_app_mcp_server.Scheduler.Work.{
  SessionBinding, ChatView, CompletionProof, OwnState, confirmed, uncertain, manual, TurnState,
  fresh, started, lost,
}
use whats_app_mcp_server.Scheduler.Machine.{opened, began, appended, State, await}
use whats_app_mcp_server.Scheduler.Worker.{
  settle_existing, examine, open_chat, run_prompt, take_turn, mark, serve, attempt, check_own,
  check_turn, ask_own, ask_mine, ask_attach, go_on, settle_or_serve,
}
use whats_app_mcp_server.Scheduler.Ownership.{Ports, when_found, when_recognised}
use whats_app_mcp_server.Scheduler.Protocol.{
  Phase, idle, settling, known, open_turn, ready, answered, marked, finished, step, place,
  is_pausable, At, Leads, chain, reads-Leads, modify-Leads, done-Leads, return-Leads, throw-Leads,
  check-Leads, pure-Leads, pure-AtGate, await-Leads, ask-Leads, act-Leads,
}
use whats_app_mcp_server.Scheduler.Gating.{
  when-Leads, By-Leads, current-AtGate, current-Leads, complete_work-Leads,
}

module _ {W : Type 0} (p : Ports W) where
  settle_existing-Leads :
      (state : ChatView) (document : Option CompletionProof)
      → Leads (At settling) (settle_existing p state document) (λ _. At finished)
  unfolding settle_existing step
  settle_existing-Leads state none = throw-Leads _ _ refl
  settle_existing-Leads state (some proof) = chain (reads-Leads _) λ work.
      chain (pure-Leads _ refl)
        λ fingerprint. chain (check-Leads _ _ refl) λ _. complete_work-Leads p proof refl refl

  -- What an own message is known to be decides the place.
  abbrev Told : OwnState → State W → Type 0
  Told confirmed = At known
  Told _ = At idle

  check_own-Leads :
      {ph : Phase} (own : OwnState)
      → is_pausable ph ≡ true
      → Leads (At ph) (check_own p own) (λ _. At ph)
  check_own-Leads confirmed h = done-Leads _
  check_own-Leads uncertain h = throw-Leads _ _ h
  check_own-Leads manual h = done-Leads _

  -- What `classifyOwn` answers.
  classify-Leads :
      (call : State W → W × Result OwnState)
      → Leads (At idle) (await p.renewal when_recognised call) Told
  unfolding place step
  classify-Leads call =
      await-Leads _ _ _
        (λ s t own.
          elim own as (λ o. At idle s → t.trace ≡ when_recognised (ok o) ∷ s.trace → Told o t) [
            | confirmed ↦ λ (g, e) q. (false, cc)
            | uncertain ↦ λ (g, e) q. (false, cc)
            | manual ↦ λ (g, e) q. (false, cc)
          ])
        (λ s t c (g, e) q. (idle, (false, cc), refl))

  Told-Leads : (own : OwnState) → Leads (Told own) (check_own p own) (λ _. Told own)
  Told-Leads confirmed = done-Leads _
  Told-Leads uncertain = throw-Leads _ _ refl
  Told-Leads manual = done-Leads _

  check_turn-Leads :
      {ph : Phase} (t : TurnState)
      → is_pausable ph ≡ true
      → Leads (At ph) (check_turn p t) (λ _. At ph)
  check_turn-Leads fresh h = done-Leads _
  check_turn-Leads started h = throw-Leads _ _ h
  check_turn-Leads lost h = throw-Leads _ _ h

  ask_own-Leads :
      (f : Option (W → List ℕ → List ℕ → W × Result OwnState))
      → Leads (At idle) (ask_own p f) (λ _. At idle)
  ask_own-Leads none = done-Leads _
  ask_own-Leads (some f) = ask-Leads _ _ refl

  ask_mine-Leads : (mine : Bool) → Leads (At idle) (ask_mine p mine) Told
  ask_mine-Leads true = classify-Leads _
  ask_mine-Leads false = return-Leads Told manual

  examine-Leads : Leads (At idle) (examine p) Told
  unfolding examine
  examine-Leads = chain (ask_own-Leads p.own_mutation) λ own. chain (check_own-Leads own refl) λ _.
      chain (ask-Leads _ _ refl) λ progress. chain (check_turn-Leads progress refl) λ _.
        chain (reads-Leads _) λ mine.
          chain (ask_mine-Leads mine)
            λ known. chain {R = Told} (Told-Leads known) λ _. return-Leads Told known

  attach-Leads :
      {ph : Phase} (f : Option (W → SessionBinding → W × Result (Unit {0}))) (b : SessionBinding)
      → is_pausable ph ≡ true
      → Leads (At ph) (ask_attach p f b) (λ _. At ph)
  attach-Leads none b h = done-Leads _
  attach-Leads (some f) b h = ask-Leads _ _ h

  open_chat-Leads :
      {ph next : Phase} (state : ChatView)
      → is_pausable ph ≡ true
      → is_pausable next ≡ true
      → step (ph, true) opened ≡ some (next, false)
      → Leads (At ph) (open_chat p state) (λ _. At next)
  unfolding open_chat
  open_chat-Leads state h k moved = chain (current-AtGate p h) λ _.
      chain (act-Leads _ _ _ k moved) λ binding. chain (modify-Leads _ λ s q. q) λ _.
        chain (current-Leads p k) λ _. chain (reads-Leads _) λ chat. chain (check-Leads _ _ k) λ _.
          chain (ask-Leads _ _ k) λ bound. chain (check-Leads _ _ k) λ _.
            chain (current-Leads p k) λ _.
              chain (attach-Leads p.attach binding k)
                λ _. chain (current-Leads p k) λ _. chain (current-Leads p k) λ _. done-Leads _

  run_prompt-Leads :
      (binding : SessionBinding) → Leads (At ready) (run_prompt p binding) (λ _. At answered)
  unfolding run_prompt step
  run_prompt-Leads binding = chain (current-Leads p refl) λ _.
      chain (current-AtGate p refl) λ _. chain (act-Leads _ _ _ refl refl) λ _. current-Leads p refl

  take_turn-Leads :
      (binding : SessionBinding) → Leads (At open_turn) (take_turn p binding) (λ _. At answered)
  unfolding take_turn step
  take_turn-Leads binding = chain (modify-Leads _ λ s q. q) λ _.
      chain (ask-Leads _ _ refl) λ deferred. chain (current-AtGate p refl) λ _.
        chain (when-Leads p began _ refl refl) λ begun. chain (By-Leads _ begun _ refl) λ _.
          chain (modify-Leads _ λ s q. q)
            λ _. chain (run_prompt-Leads binding) λ _. ask-Leads _ _ refl

  mark-Leads :
      {ph : Phase} (own : OwnState) (binding : SessionBinding)
      → is_pausable ph ≡ true
      → step (ph, true) appended ≡ some (marked, false)
      → Leads (At ph) (mark p own binding) (λ _. At finished)
  unfolding mark step
  mark-Leads own binding h moved = chain (current-Leads p h) λ _. chain (ask-Leads _ _ h) λ sends.
      chain (current-AtGate p h) λ _. chain (reads-Leads _) λ work.
        chain (pure-AtGate _ h) λ fingerprint.
          chain (act-Leads _ _ _ refl moved) λ proof. complete_work-Leads p proof refl refl

  go_on-Leads :
      (own : OwnState) (state : ChatView) → Leads (Told own) (go_on p state own) (λ _. At finished)
  unfolding go_on step
  go_on-Leads confirmed state =
      chain (open_chat-Leads state refl refl refl)
        λ binding. chain (done-Leads _) λ _. mark-Leads _ binding refl refl
  go_on-Leads uncertain state =
      chain (open_chat-Leads state refl refl refl)
        λ binding. chain (take_turn-Leads binding) λ _. mark-Leads _ binding refl refl
  go_on-Leads manual state =
      chain (open_chat-Leads state refl refl refl)
        λ binding. chain (take_turn-Leads binding) λ _. mark-Leads _ binding refl refl

  serve-Leads : (state : ChatView) → Leads (At idle) (serve p state) (λ _. At finished)
  unfolding serve
  serve-Leads state = chain examine-Leads λ own. go_on-Leads own state

  -- Whether a marker is there decides the place.
  abbrev Found : Option (Option CompletionProof) → State W → Type 0
  Found none = At idle
  Found (some d) = At settling

  find-Leads :
      (call : State W → W × Result (Option (Option CompletionProof)))
      → Leads (At idle) (await p.renewal when_found call) Found
  unfolding place step
  find-Leads call =
      await-Leads _ _ _
        (λ s t d. elim d as (λ d. At idle s → t.trace ≡ when_found (ok d) ∷ s.trace → Found d t) [
          | none ↦ λ (g, e) q. (false, cc)
          | some d ↦ λ (g, e) q. (false, cc)
        ])
        (λ s t c (g, e) q. (idle, (false, cc), refl))

  settle_or_serve-Leads :
      (state : ChatView) (existing : Option (Option CompletionProof))
      → Leads (Found existing) (settle_or_serve p state existing) (λ _. At finished)
  settle_or_serve-Leads state none = serve-Leads state
  settle_or_serve-Leads state (some document) = settle_existing-Leads state document

  pub attempt-Leads : Leads (At idle) (attempt p) (λ _. At finished)
  unfolding attempt
  attempt-Leads = chain (current-Leads p refl) λ _. chain (ask-Leads _ _ refl) λ state.
      chain (reads-Leads _) λ sequence.
        chain (check-Leads _ _ refl)
          λ _. chain (find-Leads _) λ existing. settle_or_serve-Leads state existing
