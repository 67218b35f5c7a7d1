-- ===== src/Scheduler/Ownership.antt =====
-- scheduler/chat-worker.ts: what `runChatWorker` is given, and the check of its ownership.
use whats_app_mcp_server.Base.{
  ℕ, Bool, true, not, ◌&&◌, Option, none, some, List, if◌then◌else◌, Text,
}
use whats_app_mcp_server.Domain.Errors.{Result, ok, lease_lost}
use whats_app_mcp_server.Domain.Pauses.{PauseReason}
use whats_app_mcp_server.Domain.Events.{Notification}
use whats_app_mcp_server.Scheduler.Work.{
  Ownership, ClaimedWork, SessionBinding, ChatView, Send, CompletionMarker, CompletionProof,
  TurnState, OwnState, confirmed,
}
use whats_app_mcp_server.Scheduler.Machine.{
  Act, gated, asked, found, recognised, completed, State, Run, Meanwhile, ◌>>=◌, ◌>>◌, throw, check,
  note, reads, modify, await,
}

-- The repository, the host, the turn's preparation and journal, the clock, and the renewal loop. A
-- document is what the host found, which the schema of proofs may refuse (`none`). A call that
-- throws answers with its class, another exception with `internal_failed`.
pub record Ports (W : Type 0) : Type 0 where
  pub renewal : W → Meanwhile W
  pub app_current : W → Bool
  pub lease_ms : ℕ
  pub renew : W → ClaimedWork → ℕ → W × Result (Option Ownership)
  pub check_work : W → ClaimedWork → W × Result Bool
  pub read_chat : W → Text → W × Result ChatView
  pub find_event : W → Text → Text → W × Result (Option (Option CompletionProof))
  pub own_mutation : Option (W → Text → Text → W × Result OwnState)
  pub turn_state : W → ClaimedWork → W × Result TurnState
  pub classify_own : W → Text → Text → Text → W × Result OwnState
  pub open_session : W → ClaimedWork → Option SessionBinding → W × Result SessionBinding
  pub bind_session : W → ClaimedWork → SessionBinding → W × Result Bool
  pub attach : Option (W → SessionBinding → W × Result (Unit {0}))
  pub prepare : W → SessionBinding → W × Result (Option Bool)
  pub begin_turn : W → ClaimedWork → W × Result Bool
  pub instructions : ClaimedWork → Text
  pub prompt : W → SessionBinding → Notification → Text → W × Result (Unit {0})
  pub after_prompt : W → SessionBinding → Bool → W × Result (Unit {0})
  pub confirmed_sends : W → W × Result (List Send)
  pub sha256 : Text → Text
  pub time_text : W → Text
  pub append_completion : W → SessionBinding → CompletionMarker → W × Result CompletionProof
  pub complete : W → ClaimedWork → CompletionProof → W × Result Bool
  pub pause : W → ClaimedWork → PauseReason → W × Result Bool
  pub dispose : W → SessionBinding → W × Result (Unit {0})

abbrev pub when : Act → Result Bool → Act
when a (ok true) = a
when a _ = asked

abbrev pub when_found : Result (Option (Option CompletionProof)) → Act
when_found (ok (some d)) = found
when_found _ = asked

abbrev pub when_recognised : Result OwnState → Act
when_recognised (ok confirmed) = recognised
when_recognised _ = asked

unfoldable pub pure : {W A : Type 0} → Result A → Run W A
pure r s = (s, r)

module _ {W : Type 0} (p : Ports W) where
  abbrev pub ask : {A : Type 0} → (State W → W × Result A) → Run W A
  ask = await p.renewal (λ _. asked)

  abbrev pub act : {A : Type 0} → Act → (State W → W × Result A) → Run W A
  act a = await p.renewal (λ _. a)

  abbrev pub lose : Run W (Unit {0})
  lose = do modify (λ s. record s { lost = true }); throw lease_lost

  abbrev pub is_current : State W → Bool
  is_current s = not s.lost && p.app_current s.world

  -- `if (!renewed || …) { lost = true; throw … } work = { ...work, ownership: renewed }`.
  abbrev pub keep : Option Ownership → Bool → Run W (Unit {0})
  keep none still = lose
  keep (some o) still =
      if still then modify (λ s. record s { work = record (s.work) { ownership = o } }) else lose

  -- `context.current()`.
  unfoldable pub current : Run W (Unit {0})
  current = do
    alive ← reads is_current
    check alive lease_lost
    renewed ← ask λ s. p.renew s.world s.work p.lease_ms
    still ← reads is_current
    keep renewed still
    checks ← ask λ s. p.check_work s.world s.work
    app ← reads λ s. p.app_current s.world
    if checks && app then note gated else lose

  -- `if (!await repository.complete(work, proof)) throw …`.
  unfoldable pub complete_work : CompletionProof → Run W (Unit {0})
  complete_work proof = do
    current
    answer ← await p.renewal (when completed) λ s. p.complete s.world s.work proof
    check answer lease_lost
