-- ===== src/Journal/Poison.antt =====
-- pi/tool-journal-extension.ts: a poisoned session.
use whats_app_mcp_server.Base.{
  ℕ, ◌≡◌, refl, ap, subst, sym, ◌∙◌, arith, Bool, true, false, not, Option, none, some, List, [],
  ◌∷◌, ◌&&◌, if◌then◌else◌, Text, is_some,
}
use whats_app_mcp_server.Json.{Json}
use whats_app_mcp_server.Domain.Errors.{ErrorClass, err, mutation_uncertain}
use whats_app_mcp_server.Journal.Arguments.{tool_of}
use whats_app_mcp_server.Journal.Confirmation.{ToolResult}
use whats_app_mcp_server.Journal.Live.{
  Awaited, World, Act, after, ◌>>◌, ensure, pass_gate, poison_live,
}
use whats_app_mcp_server.Journal.Hooks.{
  ToolCall, HookVerdict, passes, blocked, end_hook, admit_call, take_result, tool_call, tool_result,
}
use whats_app_mcp_server.Journal.Turn.{Step, tool_calls, tool_results, perform, run_turn}

ensure-fails :
    {A : Type 0} {w : World} (b : Bool) (k : Act A) → b ≡ false → (ensure b >> k) w ≡ (w, none)
unfolding ensure after
ensure-fails true k h = ground (arith, h)
ensure-fails false k h = refl

after-none :
    {A B : Type 0} {w : World} (p : World × Option A) (f : A → Act B)
    → p ≡ (w, none)
    → after p f ≡ (w, none)
unfolding after
after-none p f h = ap (λ p. after p f) h

end_hook-none :
    {w : World} (p : World × Option Bool) → p ≡ (w, none) → end_hook p ≡ (poison_live w, blocked)
unfolding end_hook
end_hook-none p h = ap end_hook h

-- Nothing is written, and the session stays poisoned.
abbrev Stays : World → World → Type 0
Stays w₁ w₂ = (w₂.effects ≡ w₁.effects) × (w₂.live.poisoned ≡ true)

by_tool :
    (w : World) (o : Option Text) (f : Text → World × HookVerdict)
    → w.live.poisoned ≡ true
    → ((t : Text) → f t ≡ (poison_live w, blocked))
    → Stays w (elim o as (λ _. World × HookVerdict) [ none ↦ (w, passes) | some t ↦ f t ]).0
unfolding poison_live
by_tool w none f h k = (refl, h)
by_tool w (some t) f h k = subst (λ p. Stays w p.0) (sym (k t)) (refl, refl)

blocked_by :
    {v : World} {t : Text} (w : World) (o : Option Text) (f : Text → World × HookVerdict)
    → o ≡ some t
    → f t ≡ (v, blocked)
    → (elim o as (λ _. World × HookVerdict) [ none ↦ (w, passes) | some t ↦ f t ]).1 ≡ blocked
blocked_by w o f p h =
    subst
      (λ o.
        (elim o as (λ _. World × HookVerdict) [ none ↦ (w, passes) | some t ↦ f t ]).1 ≡ blocked)
      (sym p) (ap (λ q. q.1) h)

not_taken : {A : Type 0} (c : Bool) (x y : A) → c ≡ false → (if c then x else y) ≡ y
not_taken true x y h = ground (arith, h)
not_taken false x y h = refl

module _ (answers : ℕ → Awaited) where
  pass_gate-poisoned : (w : World) → w.live.poisoned ≡ true → pass_gate answers w ≡ (w, none)
  unfolding pass_gate after
  pass_gate-poisoned w h =
      ensure-fails (is_some w.live.context && (w.live.running && not w.live.poisoned)) _
        (ground (arith, h))

  admits_none :
      (c : ToolCall) (w : World) (t : Text)
      → w.live.poisoned ≡ true
      → end_hook (admit_call answers c t w) ≡ (poison_live w, blocked)
  unfolding admit_call
  admits_none c w t h =
      end_hook-none _ (after-none (pass_gate answers w) _ (pass_gate-poisoned w h))

  module _ (parse : Text → Option Json) where
    takes_none :
        (c : ToolCall) (r : ToolResult) (w : World) (t : Text)
        → w.live.poisoned ≡ true
        → end_hook (take_result answers parse c r t w) ≡ (poison_live w, blocked)
    unfolding take_result
    takes_none c r w t h =
        end_hook-none _ (after-none (pass_gate answers w) _ (pass_gate-poisoned w h))

    perform-Stays :
        (steps : List Step) (w : World)
        → w.live.poisoned ≡ true
        → Stays w (perform answers parse steps w)
    unfolding perform tool_call tool_result
    perform-Stays [] w h = (refl, h)
    perform-Stays (tool_calls c ∷ steps) w h =
        let one : Stays w (tool_call answers c w).0 =
          by_tool w (tool_of c.name) _ h (λ t. admits_none c w t h) in
        let rest = perform-Stays steps (tool_call answers c w).0 one.1 in (rest.0 ∙ one.0, rest.1)
    perform-Stays (tool_results c r ∷ steps) w h =
        let one : Stays w (tool_result answers parse c r w).0 =
          by_tool w (tool_of c.name) _ h (λ t. takes_none c r w t h) in
        let rest = perform-Stays steps (tool_result answers parse c r w).0 one.1 in
        (rest.0 ∙ one.0, rest.1)

    -- In a poisoned session every call and every result of a tool that changes something outside is
    -- blocked; whatever calls and results come, nothing is written to Redis' journal or the session
    -- and the session stays poisoned; and no run starts.
    pub poison_blocks :
        (c : ToolCall) (r : ToolResult) (t : Text) (steps : List Step)
        (failed : Option (Option ErrorClass)) (w : World)
        → tool_of c.name ≡ some t
        → w.live.poisoned ≡ true
        → ((tool_call answers c w).1 ≡ blocked)
          × ((tool_result answers parse c r w).1 ≡ blocked)
          × ((perform answers parse steps w).effects ≡ w.effects)
          × ((perform answers parse steps w).live.poisoned ≡ true)
          × (run_turn answers parse steps failed w ≡ (w, err mutation_uncertain))
    unfolding tool_call tool_result run_turn
    poison_blocks c r t steps failed w known h =
        let call =
          blocked_by w (tool_of c.name) (λ t. end_hook (admit_call answers c t w)) known
            (admits_none c w t h) in
        let result =
          blocked_by w (tool_of c.name) (λ t. end_hook (take_result answers parse c r t w)) known
            (takes_none c r w t h) in
        let (same, still) = perform-Stays steps w h in
        (
          call,
          result,
          same,
          still,
          not_taken (is_some w.live.context && not w.live.running && not w.live.poisoned) _ _
              (ground (arith, h)),
        )
