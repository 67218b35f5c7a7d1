-- ===== src/Journal/Writes.antt =====
-- pi/tool-journal-extension.ts: what the steps that write have written when they succeed.
use whats_app_mcp_server.Base.{ℕ, ◌≡◌, refl, ap, subst, Text, ◌∙◌, false, some, ◌∷◌}
use whats_app_mcp_server.Domain.Events.{Notification}
use whats_app_mcp_server.Domain.Mutations.{MutationState}
use whats_app_mcp_server.Journal.Live.{
  Effect, begins, confirms, records, Awaited, World, did, await_call, ask_granted, pass_gate,
  record_state,
}
use whats_app_mcp_server.Journal.Hooks.{add_call, drop_call, start_call, close_call}
use whats_app_mcp_server.Journal.Steps.{
  Frame, Frame-refl, Frame-trans, await_call-Frame, pass_gate-some, after-some, ensure-then,
  modify-then, give-some, modify-some,
}

-- The same, but for one effect.
pub record Writes (e : Effect) (w₁ w₂ : World) : Type 0 where
  pub effects : w₂.effects ≡ e ∷ w₁.effects
  pub calls : w₂.live.calls ≡ w₁.live.calls
  pub session : w₂.live.session ≡ w₁.live.session
  pub context : w₂.live.context ≡ w₁.live.context

did-Writes : {e : Effect} {w₁ w₂ : World} → did e w₁ ≡ w₂ → Writes e w₁ w₂
did-Writes p =
    subst (Writes _ _) p (record { effects = refl; calls = refl; session = refl; context = refl })

-- A frame before and a frame after.
framed :
    {e : Effect} {w₁ w₂ w₃ w₄ : World} → Frame w₁ w₂ → Writes e w₂ w₃ → Frame w₃ w₄ → Writes e w₁ w₄
framed {e} f m g = record {
  effects = g.effects ∙ m.effects ∙ ap (λ es. e ∷ es) f.effects;
  calls = g.calls ∙ m.calls ∙ f.calls;
  session = g.session ∙ m.session ∙ f.session;
  context = g.context ∙ m.context ∙ f.context;
}

module _ (answers : ℕ → Awaited) where
  pub ask_granted-Writes :
      {w₁ w₂ : World} (e : Effect) → ask_granted answers e w₁ ≡ (w₂, some tt) → Writes e w₁ w₂
  unfolding ask_granted
  ask_granted-Writes {w₁} {w₂} e h =
      let (w, a, p, h₁) = after-some (await_call answers w₁) _ h in
      let (b, h₂) = ensure-then a.granted _ h₁ in
      framed (await_call-Frame answers p) (did-Writes (modify-some (did e) h₂)) (Frame-refl refl)

  -- A record is written by a session that is not poisoned, before and after.
  pub record_state-Writes :
      {w₁ w₂ : World} (s : MutationState)
      → record_state answers s w₁ ≡ (w₂, some tt)
      → (e : Notification) × (w₁.live.context ≡ some e)
        × Writes (records w₁.live.session e s) w₁ w₂
        × (w₂.live.poisoned ≡ false)
  unfolding record_state
  record_state-Writes {w₁} {w₂} s h =
      let (w, e, p, h₁) = after-some (pass_gate answers w₁) _ h in
      let (f, fresh, still, known) = pass_gate-some answers p in
      let (w₃, a, q, h₂) = after-some (await_call answers w) _ h₁ in
      let h₃ = modify-then (λ w. did (records w.live.session e s) w) _ h₂ in
      let (w₄, e₂, r, h₄) = after-some (pass_gate answers _) _ h₃ in
      let (g, fresh₂, still₂, known₂) = pass_gate-some answers r in
      let (same, u) = give-some (some tt) h₄ in
      let before = Frame-trans f (await_call-Frame answers q) in
      let m = framed before (did-Writes refl) (Frame-trans g (Frame-refl same)) in
      (
        e,
        known,
        subst (λ b. Writes (records b e s) w₁ w₂) before.session m,
        subst (λ w. w.live.poisoned ≡ false) same still₂,
      )

  -- A call is entered when it has been begun.
  pub start_call-some :
      {w₁ w₂ : World} (id : Text) (s : MutationState)
      → start_call answers id s w₁ ≡ (w₂, some tt)
      → (w : World) × Writes (begins s) w₁ w × (add_call id s w ≡ w₂)
  unfolding start_call
  start_call-some {w₁} id s h =
      let (w, u, p, h₁) = after-some (ask_granted answers (begins s) w₁) _ h in
      (w, ask_granted-Writes (begins s) p, modify-some (add_call id s) h₁)

  -- It is dropped when it has been confirmed, and only by a session that is not poisoned.
  pub close_call-some :
      {w₁ w₂ : World} (id : Text) (s : MutationState) (m : Text)
      → close_call answers id s m w₁ ≡ (w₂, some tt)
      → (w : World) × Writes (confirms s m) w₁ w × (w.live.poisoned ≡ false) × (drop_call id w ≡ w₂)
  unfolding close_call
  close_call-some {w₁} id s m h =
      let (w, u, p, h₁) = after-some (ask_granted answers (confirms s m) w₁) _ h in
      let (w₃, e, q, h₂) = after-some (pass_gate answers w) _ h₁ in
      let (f, fresh, still, known) = pass_gate-some answers q in
      (
        w₃,
        framed (Frame-refl refl) (ask_granted-Writes (confirms s m) p) f,
        still,
        modify-some (drop_call id) h₂,
      )
