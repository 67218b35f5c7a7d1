-- ===== src/Journal/Matching.antt =====
-- pi/tool-journal-extension.ts: the calls that a session knows are those that its effects have begun
-- and not confirmed, unless it is poisoned.
use whats_app_mcp_server.Base.{
  ℕ, ◌≡◌, refl, ap, subst, sym, ◌∙◌, arith, Bool, true, false, not, Option, none, some, List, [],
  ◌∷◌, ◌&&◌, ◌⊎◌, inl, inr, if◌then◌else◌, Text, text_eq, Dict, lookup, insert, remove, is_some,
}
use whats_app_mcp_server.Base.Each.{Each}
use whats_app_mcp_server.Base.Members.{Each-insert, Each-remove, Each-lookup}
use whats_app_mcp_server.Json.{Json}
use whats_app_mcp_server.Json.Inversion.{none-some}
use whats_app_mcp_server.Domain.Events.{Notification}
use whats_app_mcp_server.Domain.Mutations.{MutationState, confirmed}
use whats_app_mcp_server.Journal.Arguments.{permits_attribution, mutation_destination, tool_of}
use whats_app_mcp_server.Journal.Confirmation.{ToolResult, confirmed_message}
use whats_app_mcp_server.Journal.Live.{
  Effect, begins, confirms, marks, records, Awaited, World, Act, give, await_call, pass_gate,
  record_state, with_progress, mark_uncertain, poison_live,
}
use whats_app_mcp_server.Journal.Hooks.{
  ToolCall, HookVerdict, passes, end_hook, is_from_adapter, attempt_of, begin_attempt, admit_call,
  close_call, confirm_attempt, take_result, tool_call, tool_result,
}
use whats_app_mcp_server.Journal.Steps.{
  Frame, await_call-Frame, pass_gate-some, after-then, ensure-then, observe-then, give-then,
  give-some,
}
use whats_app_mcp_server.Journal.Writes.{Writes, record_state-Writes, close_call-some}
use whats_app_mcp_server.Journal.Begun.{begin_attempt-Entered}

-- The attempts that have been begun and not confirmed, by their calls; the last effect is first.
unfoldable pub open_calls : List Effect → Dict MutationState
open_calls [] = []
open_calls (begins s ∷ es) = insert s.tool_call_id s (open_calls es)
open_calls (confirms s m ∷ es) = remove s.tool_call_id (open_calls es)
open_calls (_ ∷ es) = open_calls es

unfoldable pub Matched : World → Type 0
Matched w = w.live.calls ≡ open_calls w.effects

abbrev pub Tied : World → Type 0
Tied w = (w.live.poisoned ≡ true) ⊎ Matched w

abbrev Keyed : Text × MutationState → Type 0
Keyed (id, s) = s.tool_call_id ≡ id

open_calls-Keyed : (es : List Effect) → Each Keyed (open_calls es)
unfolding open_calls
open_calls-Keyed [] = tt
open_calls-Keyed (begins s ∷ es) =
    Each-insert Keyed s.tool_call_id s (open_calls es) refl (open_calls-Keyed es)
open_calls-Keyed (confirms s m ∷ es) =
    Each-remove Keyed s.tool_call_id (open_calls es) (open_calls-Keyed es)
open_calls-Keyed (marks s ∷ es) = open_calls-Keyed es
open_calls-Keyed (records b e s ∷ es) = open_calls-Keyed es

pub Frame-Matched : {w₁ w₂ : World} → Frame w₁ w₂ → Matched w₁ → Matched w₂
unfolding Matched
Frame-Matched f h = f.calls ∙ h ∙ ap open_calls (sym f.effects)

records-Matched :
    {w₁ w₂ : World} {e : Effect}
    → open_calls (e ∷ w₁.effects) ≡ open_calls w₁.effects
    → Writes e w₁ w₂
    → Matched w₁
    → Matched w₂
unfolding Matched
records-Matched q m h = m.calls ∙ h ∙ sym q ∙ ap open_calls (sym m.effects)

-- A session that a gate lets pass is not poisoned.
pub unpoisoned : (w : World) → Tied w → w.live.poisoned ≡ false → Matched w
unpoisoned w (inl p) q = absurd (ground (arith, p, q))
unpoisoned w (inr h) q = h

hook-Tied :
    (m : Act Bool) (w₁ : World)
    → ((w₂ : World) (b : Bool) → m w₁ ≡ (w₂, some b) → Matched w₂)
    → (p : World × Option Bool) → m w₁ ≡ p
    → Tied (end_hook p).0
unfolding end_hook poison_live
hook-Tied m w₁ f (w, none) h = inl refl
hook-Tied m w₁ f (w, some b) h = inr (f w b h)

branch :
    {w₁ w₂ : World} {b : Bool} (c : Bool) (m : Act Bool)
    → Matched w₁
    → (m w₁ ≡ (w₂, some b) → Matched w₂)
    → (if c then m else give (some false)) w₁ ≡ (w₂, some b)
    → Matched w₂
unfolding give
branch true m h f p = f p
branch false m h f p = subst Matched (ap (λ q. q.0) p) h

by_tool :
    (w : World) (o : Option Text) (f : Text → World × HookVerdict)
    → Tied w
    → ((t : Text) → Tied (f t).0)
    → Tied (elim o as (λ _. World × HookVerdict) [ none ↦ (w, passes) | some t ↦ f t ]).0
by_tool w none f h k = h
by_tool w (some t) f h k = k t

module _ (answers : ℕ → Awaited) where
  begin_attempt-Matched :
      {b : Bool} (w₁ w₂ : World) (c : ToolCall) (tool to : Text) (e : Notification)
      → w₁.live.context ≡ some e
      → Matched w₁
      → begin_attempt answers c tool to e w₁ ≡ (w₂, some b)
      → Matched w₂
  unfolding open_calls Matched
  begin_attempt-Matched w₁ w₂ c tool to e working matched h =
      let m = begin_attempt-Entered answers c tool to e working h in
      let s = attempt_of c tool to e m.owner in
      m.calls ∙ ap (insert c.id s) matched ∙ ap open_calls (sym m.effects)

  admit_call-Matched :
      {b : Bool} (w₁ w₂ : World) (c : ToolCall) (tool : Text)
      → Tied w₁
      → admit_call answers c tool w₁ ≡ (w₂, some b)
      → Matched w₂
  unfolding admit_call
  admit_call-Matched w₁ w₂ c tool tied h = after-then (pass_gate answers w₁) _ h λ w e p h₁.
      let (f, sound, still, working) = pass_gate-some answers p in
      let matched = Frame-Matched f (unpoisoned w₁ tied sound) in
      let (genuine, h₂) = ensure-then (is_from_adapter c.matching) _ h₁ in
      let known = λ (w : World). is_some (lookup c.id w.live.calls) in
      let (new, h₃) = ensure-then (not (known w)) _ (observe-then known _ h₂) in
      branch (permits_attribution tool c.input e) _ matched
        (λ h₄.
          let (to, goes, h₅) = give-then (mutation_destination tool c.input) _ h₄ in
          begin_attempt-Matched w w₂ c tool to e (f.context ∙ working) matched h₅)
        h₃

  confirm_attempt-Matched :
      {b : Bool} (w₁ w₂ : World) (id : Text) (s : MutationState) (finished : Text) (m : Option Text)
      → s.tool_call_id ≡ id
      → Matched w₁
      → confirm_attempt answers id s finished m w₁ ≡ (w₂, some b)
      → Matched w₂
  unfolding confirm_attempt open_calls Matched
  confirm_attempt-Matched w₁ w₂ id s finished none key matched h =
      after-then (mark_uncertain answers s w₁) _ h
        λ w a p h₁. let (x, none_is) = give-some none h₁ in absurd (none-some none_is)
  confirm_attempt-Matched w₁ w₂ id s finished (some m) key matched h =
      let t = with_progress (confirmed m finished) s in
      after-then (record_state answers t w₁) _ h λ w a p h₁.
        let (e, known, n, still) = record_state-Writes answers t p in
        after-then (await_call answers w) _ h₁ λ w₃ b q h₂.
          let there =
            Frame-Matched (await_call-Frame answers {w₁ = w} {w₂ = w₃} q)
              (records-Matched refl n matched) in
          after-then (close_call answers id s m w₃) _ h₂ λ w₄ c r h₃.
            let (w₅, k, sound, dropped) = close_call-some answers {w₁ = w₃} {w₂ = w₄} id s m r in
            let (same, x) = give-some (some true) h₃ in
            ap (λ w. w.live.calls) (sym (dropped ∙ same))
            ∙ ap (remove id) (k.calls ∙ there)
            ∙ ap (λ i. remove i (open_calls w₃.effects)) (sym key)
            ∙ ap open_calls (sym k.effects ∙ ap (λ w. w.effects) (dropped ∙ same))

  take_result-Matched :
      {b : Bool} (parse : Text → Option Json) (w₁ w₂ : World) (c : ToolCall) (r : ToolResult)
      (tool : Text)
      → Tied w₁
      → take_result answers parse c r tool w₁ ≡ (w₂, some b)
      → Matched w₂
  unfolding take_result Matched
  take_result-Matched parse w₁ w₂ c r tool tied h =
      after-then (pass_gate answers w₁) _ h λ w e p h₁.
        let (f, sound, still, working) = pass_gate-some answers p in
        let matched = Frame-Matched f (unpoisoned w₁ tied sound) in
        let h₂ = observe-then (λ w. lookup c.id w.live.calls) _ h₁ in
        let (s, there, h₃) = give-then (lookup c.id w.live.calls) _ h₂ in
        let (to, goes, h₄) = give-then (mutation_destination tool c.input) _ h₃ in
        let (same, h₅) = ensure-then (text_eq s.tool tool && text_eq to s.destination) _ h₄ in
        let keyed = Each-lookup Keyed c.id s (open_calls w.effects) (open_calls-Keyed w.effects) in
        confirm_attempt-Matched w w₂ c.id s c.now (confirmed_message parse r tool)
          (keyed (ap (lookup c.id) (sym matched) ∙ there)) matched h₅

  pub tool_call-Tied : (c : ToolCall) (w : World) → Tied w → Tied (tool_call answers c w).0
  unfolding tool_call
  tool_call-Tied c w tied =
      by_tool w (tool_of c.name) _ tied
        λ t. hook-Tied (admit_call answers c t) w (λ w₂ b. admit_call-Matched w w₂ c t tied) _ refl

  pub tool_result-Tied :
      (parse : Text → Option Json) (c : ToolCall) (r : ToolResult) (w : World)
      → Tied w
      → Tied (tool_result answers parse c r w).0
  unfolding tool_result
  tool_result-Tied parse c r w tied = by_tool w (tool_of c.name) _ tied λ t.
      hook-Tied (take_result answers parse c r t) w
        (λ w₂ b. take_result-Matched parse w w₂ c r t tied) _ refl
