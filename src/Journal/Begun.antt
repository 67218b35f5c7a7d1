-- ===== src/Journal/Begun.antt =====
-- pi/tool-journal-extension.ts: what has been done before a call passes.
use whats_app_mcp_server.Base.{
  ℕ, ◌≡◌, refl, ap, subst, sym, ◌∙◌, arith, Bool, true, false, not, Option, none, some, ◌∷◌,
  if◌then◌else◌, Text, lookup, insert, is_some,
}
use whats_app_mcp_server.Json.Inversion.{some-injective}
use whats_app_mcp_server.Domain.Events.{Notification}
use whats_app_mcp_server.Scheduler.Work.{Ownership}
use whats_app_mcp_server.Journal.Arguments.{tool_of, permits_attribution, mutation_destination}
use whats_app_mcp_server.Journal.Live.{
  begins, records, Awaited, World, Act, give, await_call, pass_gate, record_state,
}
use whats_app_mcp_server.Journal.Hooks.{
  ToolCall, passes, end_hook, is_from_adapter, is_attempt, attempt_of, start_call, begin_attempt,
  admit_call, tool_call,
}
use whats_app_mcp_server.Journal.Steps.{
  Frame-refl, Frame-trans, await_call-Frame, pass_gate-some, after-then, ensure-then, observe-then,
  give-then, give-some,
}
use whats_app_mcp_server.Journal.Writes.{Writes, record_state-Writes, start_call-some}

-- The call is of the adapter's tool, new, and permitted by the attribution policy; its attempt, with
-- the destination of its input, has been begun in Redis and after that recorded in the session.
pub record Begun (c : ToolCall) (tool : Text) (w₁ w₂ : World) : Type 0 where
  pub event : Notification
  pub destination : Text
  pub owner : Ownership
  pub working : w₁.live.context ≡ some event
  pub genuine : is_from_adapter c.matching ≡ true
  pub fresh : is_some (lookup c.id w₁.live.calls) ≡ false
  pub permitted : permits_attribution tool c.input event ≡ true
  pub goes_to : mutation_destination tool c.input ≡ some destination
  pub effects :
      w₂.effects
      ≡ records w₁.live.session event (attempt_of c tool destination event owner)
        ∷ begins (attempt_of c tool destination event owner)
        ∷ w₁.effects
  pub calls : w₂.live.calls ≡ insert c.id (attempt_of c tool destination event owner) w₁.live.calls
  pub sound : w₂.live.poisoned ≡ false

-- What an attempt's beginning has written.
pub record Entered (c : ToolCall) (tool to : Text) (e : Notification) (w₁ w₂ : World) : Type 0 where
  pub owner : Ownership
  pub effects :
      w₂.effects
      ≡ records w₁.live.session e (attempt_of c tool to e owner)
        ∷ begins (attempt_of c tool to e owner)
        ∷ w₁.effects
  pub calls : w₂.live.calls ≡ insert c.id (attempt_of c tool to e owner) w₁.live.calls
  pub sound : w₂.live.poisoned ≡ false

permitting :
    {w₁ w₂ : World} (c : Bool) (m : Act Bool)
    → (if c then m else give (some false)) w₁ ≡ (w₂, some true)
    → (c ≡ true) × (m w₁ ≡ (w₂, some true))
unfolding give
permitting true m h = (refl, h)
permitting false m h = ground (arith, ap (λ q. q.1) h)

end_hook-passes :
    {w : World} (p : World × Option Bool) → end_hook p ≡ (w, passes) → p ≡ (w, some true)
unfolding end_hook
end_hook-passes (w, none) h = ground (arith, ap (λ q. q.1) h)
end_hook-passes (w, some false) h = ground (arith, ap (λ q. q.1) h)
end_hook-passes (w, some true) h = ap (λ v. (v, some true)) (ap (λ q. q.0) h)

-- A hook of a tool that changes something outside takes its action.
pub on_tool :
    {A : Type 0} {o : Option Text} {t : Text} {r : A} (x : A) (f : Text → A)
    → o ≡ some t
    → elim o [ none ↦ x | some u ↦ f u ] ≡ r
    → f t ≡ r
on_tool {r = r} x f p h = subst (λ o. elim o [ none ↦ x | some u ↦ f u ] ≡ r) p h

module _ (answers : ℕ → Awaited) where
  pub begin_attempt-Entered :
      {w₁ w₂ : World} {b : Bool} (c : ToolCall) (tool to : Text) (e : Notification)
      → w₁.live.context ≡ some e
      → begin_attempt answers c tool to e w₁ ≡ (w₂, some b)
      → Entered c tool to e w₁ w₂
  unfolding begin_attempt
  begin_attempt-Entered {w₁} {w₂} c tool to e working h =
      let h₁ = observe-then (λ w. w.ownership) _ h in
      let (valid, h₂) = ensure-then (is_attempt (attempt_of c tool to e w₁.ownership)) _ h₁ in
      after-then (await_call answers w₁) _ h₂ λ w a p h₃.
        let s = attempt_of c tool to e a.ownership in
        let f = await_call-Frame answers {w₁ = w₁} {w₂ = w} p in
        after-then (start_call answers c.id s w) _ h₃ λ w₃ _ q h₄.
          let (w₄, m, r) = start_call-some answers {w₁ = w} {w₂ = w₃} c.id s q in
          after-then (record_state answers s w₃) _ h₄ λ w₅ _ t h₅.
            let (e₂, known, n, still) = record_state-Writes answers s t in
            after-then (pass_gate answers w₅) _ h₅ λ w₆ e₃ g h₆.
              let (fg, fresh, still₂, known₂) = pass_gate-some answers g in
              let (same, x) = give-some (some true) h₆ in
              let context = ap (λ w. w.live.context) (sym r) ∙ m.context ∙ f.context in
              let session = ap (λ w. w.live.session) (sym r) ∙ m.session ∙ f.session in
              let same_event = some-injective (sym known ∙ context ∙ working) in
              let n₂ = subst (λ x. Writes (records w₃.live.session x s) w₃ w₅) same_event n in
              let n₃ = subst (λ b. Writes (records b e s) w₃ w₅) session n₂ in
              let last = Frame-trans fg (Frame-refl same) in
              record {
                owner = a.ownership;
                effects =
                    last.effects
                    ∙ n₃.effects
                    ∙ ap (λ es. records w₁.live.session e s ∷ es)
                        (ap (λ w. w.effects) (sym r)
                          ∙ m.effects
                          ∙ ap (λ es. begins s ∷ es) f.effects);
                calls =
                    last.calls
                    ∙ n₃.calls
                    ∙ ap (λ w. w.live.calls) (sym r)
                    ∙ ap (insert c.id s) (m.calls ∙ f.calls);
                sound = subst (λ w. w.live.poisoned ≡ false) same still₂;
              }

  admit_call-Begun :
      {w₁ w₂ : World} (c : ToolCall) (tool : Text)
      → admit_call answers c tool w₁ ≡ (w₂, some true)
      → Begun c tool w₁ w₂
  unfolding admit_call
  admit_call-Begun {w₁} {w₂} c tool h = after-then (pass_gate answers w₁) _ h λ w e p h₁.
      let (f, fresh, still, working) = pass_gate-some answers p in
      let (genuine, h₂) = ensure-then (is_from_adapter c.matching) _ h₁ in
      let known = λ (w : World). is_some (lookup c.id w.live.calls) in
      let (new, h₃) = ensure-then (not (known w)) _ (observe-then known _ h₂) in
      let (permitted, h₄) = permitting (permits_attribution tool c.input e) _ h₃ in
      let (to, goes, h₅) = give-then (mutation_destination tool c.input) _ h₄ in
      let m = begin_attempt-Entered c tool to e (f.context ∙ working) h₅ in
      record {
        event = e;
        destination = to;
        owner = m.owner;
        working = working;
        genuine = genuine;
        fresh = ap (λ cs. is_some (lookup c.id cs)) (sym f.calls) ∙ ground (arith, new);
        permitted = permitted;
        goes_to = goes;
        effects =
            m.effects
            ∙ ap
                (λ es.
                  records w.live.session e (attempt_of c tool to e m.owner)
                  ∷ begins (attempt_of c tool to e m.owner)
                  ∷ es)
                f.effects
            ∙ ap
                (λ b.
                  records b e (attempt_of c tool to e m.owner)
                  ∷ begins (attempt_of c tool to e m.owner)
                  ∷ w₁.effects)
                f.session;
        calls = m.calls ∙ ap (insert c.id (attempt_of c tool to e m.owner)) f.calls;
        sound = m.sound;
      }

  -- A call passes only if it is of the adapter's tool, new, and permitted by the attribution policy,
  -- with a valid destination, in a session that is not poisoned afterwards: its attempt has then been
  -- begun in Redis and after that recorded in the session, it is known under the call's id, and
  -- nothing else has been written.
  pub tool_call-Begun :
      (c : ToolCall) (tool : Text) (w₁ w₂ : World)
      → tool_of c.name ≡ some tool
      → tool_call answers c w₁ ≡ (w₂, passes)
      → Begun c tool w₁ w₂
  unfolding tool_call
  tool_call-Begun c tool w₁ w₂ known h =
      admit_call-Begun c tool
        (end_hook-passes _ (on_tool _ (λ t. end_hook (admit_call answers c t w₁)) known h))
