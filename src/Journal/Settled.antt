-- ===== src/Journal/Settled.antt =====
-- pi/tool-journal-extension.ts: what a run that ended well has left.
use whats_app_mcp_server.Base.{
  ℕ, suc, ◌≡◌, refl, ap, subst, sym, ◌∙◌, arith, Bool, true, false, not, Option, none, some, List,
  [], ◌∷◌, ◌&&◌, ◌||◌, inr, if◌then◌else◌, Text, any, is_empty, is_some,
}
use whats_app_mcp_server.Json.{Json}
use whats_app_mcp_server.Json.Inversion.{none-some, if-known, some-injective}
use whats_app_mcp_server.Domain.Errors.{ErrorClass, Result, ok, err}
use whats_app_mcp_server.Domain.Events.{Notification}
use whats_app_mcp_server.Domain.Mutations.{MutationState}
use whats_app_mcp_server.Journal.Live.{Awaited, World, Act, await_call, pass_gate, mark_uncertain}
use whats_app_mcp_server.Journal.Turn.{
  Step, tool_calls, tool_results, set_running, is_of_event, is_open, is_settled_of, first_call,
  failure_of, close_run, perform, give_up_open, end_turn, after_prompt, run_body, run_turn,
}
use whats_app_mcp_server.Journal.Steps.{
  Frame-refl, Frame-trans, await_call-Frame, await_call-some, pass_gate-some, pass_gate-asked,
  after-then, ensure-then, observe-then, modify-then, give-some,
}
use whats_app_mcp_server.Journal.Matching.{
  Matched, Tied, open_calls, unpoisoned, Frame-Matched, tool_call-Tied, tool_result-Tied,
}

-- The session is not poisoned, knows no open call, and every attempt begun has been confirmed. The
-- journal had no record of the event before the prompt, and only confirmed ones of it at the end.
pub record Settled (answers : ℕ → Awaited) (w₁ w₂ : World) : Type 0 where
  pub event : Notification
  pub working : w₁.live.context ≡ some event
  pub sound : w₂.live.poisoned ≡ false
  pub known : w₂.live.calls ≡ []
  pub begun : open_calls w₂.effects ≡ []
  pub before : any (is_of_event event.event_id) (answers (suc w₁.asked)).journal ≡ false
  pub last : ℕ
  pub at_end : w₂.asked ≡ suc (suc last)
  pub later : any (λ s. not (is_settled_of event.event_id s)) (answers last).journal ≡ false

err-ok : {e : ErrorClass} → ◌≡◌ {A = Result (Unit {0})} (err e) (ok tt) → ⊥
err-ok h = ground (arith, h)

branch-then {ℓ} :
    {A : Type 0} {w : World} {r : World × Option A} {P : Type ℓ} (c : Bool) (m n : Act A)
    → (c ≡ true → m w ≡ r → P)
    → (c ≡ false → n w ≡ r → P)
    → (if c then m else n) w ≡ r
    → P
branch-then true m n f g h = f refl h
branch-then false m n f g h = g refl h

empty-nil : {A : Type 0} (xs : List A) → is_empty xs ≡ true → xs ≡ []
empty-nil [] h = refl
empty-nil (x ∷ xs) h = ground (arith, h)

module _ (answers : ℕ → Awaited) (parse : Text → Option Json) where
  perform-Tied : (steps : List Step) (w : World) → Tied w → Tied (perform answers parse steps w)
  unfolding perform
  perform-Tied [] w h = h
  perform-Tied (tool_calls c ∷ steps) w h = perform-Tied steps _ (tool_call-Tied answers c w h)
  perform-Tied (tool_results c r ∷ steps) w h =
      perform-Tied steps _ (tool_result-Tied answers parse c r w h)

  give_up_open-fails :
      {r : Result (Unit {0})} (w₁ w₂ : World) (o : Option MutationState)
      → give_up_open answers parse o w₁ ≡ (w₂, some r)
      → ⊥
  unfolding give_up_open
  give_up_open-fails w₁ w₂ none h = let (p, q) = give-some none h in none-some q
  give_up_open-fails w₁ w₂ (some s) h =
      after-then (mark_uncertain answers s w₁) _ h
        λ w a p h₁. let (x, q) = give-some none h₁ in none-some q

  -- A prompt that has not ended well is no success.
  after_prompt-ok :
      (w₁ w₂ : World) (event : Text) (failed : Option (Option ErrorClass))
      (later : List MutationState)
      → after_prompt answers parse event failed later w₁ ≡ (w₂, some (ok tt))
      → end_turn answers parse event later w₁ ≡ (w₂, some (ok tt))
  unfolding after_prompt
  after_prompt-ok w₁ w₂ event none later h = h
  after_prompt-ok w₁ w₂ event (some e) later h =
      let (p, q) = give-some (some (err (failure_of (any (is_settled_of event) later) e))) h in
      absurd (err-ok (some-injective q))

  close_run-ok :
      (p : World × Option (Result (Unit {0}))) (w : World)
      → close_run p ≡ (w, ok tt)
      → (w₁ : World) × (p ≡ (w₁, some (ok tt))) × (set_running false w₁ ≡ w)
  unfolding close_run
  close_run-ok (w₁, none) w h = absurd (err-ok (ap (λ q. q.1) h))
  close_run-ok (w₁, some (err e)) w h = absurd (err-ok (ap (λ q. q.1) h))
  close_run-ok (w₁, some (ok tt)) w h = (w₁, refl, ap (λ q. q.0) h)

  -- The body, when it ends well.
  run_body-Settled :
      (steps : List Step) (failed : Option (Option ErrorClass)) (w₁ w₂ : World)
      → Matched w₁
      → run_body answers parse steps failed w₁ ≡ (w₂, some (ok tt))
      → Settled answers w₁ w₂
  unfolding run_body end_turn Matched
  run_body-Settled steps failed w₁ w₂ matched h = after-then (pass_gate answers w₁) _ h λ w e p h₁.
      let (f, fresh, still, working) = pass_gate-some answers p in
      after-then (await_call answers w) _ h₁ λ w₃ prior q h₂.
        let (known, next, s₃) = await_call-some answers w w₃ q in
        let (new, h₃) = ensure-then (not (any (is_of_event e.event_id) prior.journal)) _ h₂ in
        let h₄ = modify-then (perform answers parse steps) _ h₃ in
        let w₄ = perform answers parse steps w₃ in
        let tied = perform-Tied steps w₃ (
          inr (
            Frame-Matched (await_call-Frame answers {w₁ = w} {w₂ = w₃} q)
              (Frame-Matched f matched))) in
        after-then (await_call answers w₄) _ h₄ λ w₅ later r h₅.
          let h₆ = observe-then (λ w. w.live.calls) _ h₅ in
          branch-then
            (not (is_empty w₅.live.calls)
              || any (λ s. is_of_event e.event_id s && is_open s) later.journal)
            (give_up_open answers parse (first_call w₅.live.calls))
            (after_prompt answers parse e.event_id failed later.journal)
            (λ _ h₇. absurd (give_up_open-fails w₅ w₂ (first_call w₅.live.calls) h₇))
            (λ settled h₇.
              let h₈ = after_prompt-ok w₅ w₂ e.event_id failed later.journal h₇ in
              after-then (pass_gate answers w₅) _ h₈ λ w₆ e₂ g h₉.
                let (fg, sound₅, sound₆, working₂) = pass_gate-some answers g in
                let (all_settled, h₁₀) =
                  ensure-then (not (any (λ s. not (is_settled_of e.event_id s)) later.journal)) _
                    h₉ in
                let (same, x) = give-some (some (ok tt)) h₁₀ in
                let (numbered, next₅, sound₄) = await_call-some answers w₄ w₅ r in
                let no_call = empty-nil w₅.live.calls (ground (arith, settled)) in
                let tail = Frame-trans fg (Frame-refl same) in
                let there =
                  Frame-Matched (await_call-Frame answers {w₁ = w₄} {w₂ = w₅} r)
                    (unpoisoned w₄ tied (sound₄ sound₅)) in
                let matched₂ = Frame-Matched tail there in
                record {
                  event = e;
                  working = working;
                  sound = subst (λ w. w.live.poisoned ≡ false) same sound₆;
                  known = tail.calls ∙ no_call;
                  begun = sym matched₂ ∙ tail.calls ∙ no_call;
                  before =
                      subst (λ a. any (is_of_event e.event_id) a.journal ≡ false)
                        (known ∙ ap answers (pass_gate-asked answers w₁ w p)) (ground (arith, new));
                  last = w₄.asked;
                  at_end =
                      ap (λ w. w.asked) (sym same) ∙ pass_gate-asked answers w₅ w₆ g ∙ ap suc next₅;
                  later =
                      subst (λ a. any (λ s. not (is_settled_of e.event_id s)) a.journal ≡ false)
                        numbered (ground (arith, all_settled));
                })
            h₆

  -- A run that ends well ends with no poison and no open call; every attempt that was ever begun has
  -- been confirmed; the journal had no record of the event before its prompt, and at the end its
  -- records of the chat are all confirmed ones of the event. This holds if at the start the calls
  -- that the session knows are those that have been begun and not confirmed.
  pub run_turn-Settled :
      (steps : List Step) (failed : Option (Option ErrorClass)) (w₁ w₂ : World)
      → Matched w₁
      → run_turn answers parse steps failed w₁ ≡ (w₂, ok tt)
      → Settled answers w₁ w₂ × (w₂.live.running ≡ false)
  unfolding run_turn Matched
  run_turn-Settled steps failed w₁ w₂ matched h =
      if-known (is_some w₁.live.context && not w₁.live.running && not w₁.live.poisoned)
        (close_run (run_body answers parse steps failed (set_running true w₁))) _
        (λ _ h₁.
          let (w, p, same) = close_run-ok _ w₂ h₁ in
          let m = run_body-Settled steps failed (set_running true w₁) w matched p in
          (
            subst (Settled answers w₁) same (record {
              event = m.event;
              working = m.working;
              sound = m.sound;
              known = m.known;
              begun = m.begun;
              before = m.before;
              last = m.last;
              at_end = m.at_end;
              later = m.later;
            }),
            ap (λ w. w.live.running) (sym same),
          ))
        (λ _ h₁. absurd (err-ok (ap (λ q. q.1) h₁))) h
