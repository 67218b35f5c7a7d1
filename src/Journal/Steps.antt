-- ===== src/Journal/Steps.antt =====
-- The steps of pi/tool-journal-extension.ts: what their success tells, and what they leave as it is.
use whats_app_mcp_server.Base.{
  ℕ, suc, ◌≡◌, refl, ap, sym, subst, is_some, ◌∙◌, arith, Bool, true, false, not, ◌&&◌, Option,
  none, some,
}
use whats_app_mcp_server.Domain.Events.{Notification}
use whats_app_mcp_server.Json.Inversion.{if-some, none-some}
use whats_app_mcp_server.Journal.Live.{
  Awaited, World, Act, after, ◌>>=◌, ◌>>◌, give, ensure, observe, modify, await_call, pass_gate,
}

pub after-some :
    {A B : Type 0} {w₂ : World} {b : B} (p : World × Option A) (f : A → Act B)
    → after p f ≡ (w₂, some b)
    → (w₁ : World) × (a : A) × (p ≡ (w₁, some a)) × (f a w₁ ≡ (w₂, some b))
unfolding after
after-some (w, none) f h = absurd (none-some (ap (λ q. q.1) h))
after-some (w, some a) f h = (w, a, refl, h)

-- What follows, whatever the state in between.
pub after-then {ℓ} :
    {A B : Type 0} {w₂ : World} {b : B} {P : Type ℓ} (p : World × Option A) (f : A → Act B)
    → after p f ≡ (w₂, some b)
    → ((w₁ : World) (a : A) → p ≡ (w₁, some a) → f a w₁ ≡ (w₂, some b) → P)
    → P
unfolding after
after-then (w, none) f h k = absurd (none-some (ap (λ q. q.1) h))
after-then (w, some a) f h k = k w a refl h

pub give-some :
    {A : Type 0} {w₁ w₂ : World} {a : A} (o : Option A)
    → give o w₁ ≡ (w₂, some a)
    → (w₁ ≡ w₂) × (o ≡ some a)
unfolding give
give-some o h = (ap (λ q. q.0) h, ap (λ q. q.1) h)

pub ensure-then :
    {A : Type 0} {w : World} {r : World} {a : A} (b : Bool) (k : Act A)
    → (ensure b >> k) w ≡ (r, some a)
    → (b ≡ true) × (k w ≡ (r, some a))
unfolding ensure after
ensure-then true k h = (refl, h)
ensure-then false k h = absurd (none-some (ap (λ q. q.1) h))

pub observe-then :
    {A B : Type 0} {w : World} {r : World × Option B} (f : World → A) (k : A → Act B)
    → (observe f >>= k) w ≡ r
    → k (f w) w ≡ r
unfolding observe after
observe-then f k h = h

pub modify-then :
    {B : Type 0} {w : World} {r : World × Option B} (f : World → World) (k : Act B)
    → (modify f >> k) w ≡ r
    → k (f w) ≡ r
unfolding modify after
modify-then f k h = h

pub give-then :
    {A B : Type 0} {w r : World} {b : B} (o : Option A) (k : A → Act B)
    → (give o >>= k) w ≡ (r, some b)
    → (a : A) × (o ≡ some a) × (k a w ≡ (r, some b))
unfolding give after
give-then none k h = absurd (none-some (ap (λ q. q.1) h))
give-then (some a) k h = (a, refl, h)

pub modify-some :
    {w₁ w₂ : World} {a : Unit {0}} (f : World → World) → modify f w₁ ≡ (w₂, some a) → f w₁ ≡ w₂
unfolding modify
modify-some f h = ap (λ q. q.0) h

-- What a gate and an awaited call leave as it is.
pub record Frame (w₁ w₂ : World) : Type 0 where
  pub effects : w₂.effects ≡ w₁.effects
  pub calls : w₂.live.calls ≡ w₁.live.calls
  pub session : w₂.live.session ≡ w₁.live.session
  pub context : w₂.live.context ≡ w₁.live.context

pub Frame-trans : {w₁ w₂ w₃ : World} → Frame w₁ w₂ → Frame w₂ w₃ → Frame w₁ w₃
Frame-trans f g = record {
  effects = g.effects ∙ f.effects;
  calls = g.calls ∙ f.calls;
  session = g.session ∙ f.session;
  context = g.context ∙ f.context;
}

pub Frame-refl : {w₁ w₂ : World} → w₁ ≡ w₂ → Frame w₁ w₂
Frame-refl p = record {
  effects = ap (λ w. w.effects) (sym p);
  calls = ap (λ w. w.live.calls) (sym p);
  session = ap (λ w. w.live.session) (sym p);
  context = ap (λ w. w.live.context) (sym p);
}

module _ (answers : ℕ → Awaited) where
  pub await_call-Frame :
      {w₁ w₂ : World} {a : Awaited} → await_call answers w₁ ≡ (w₂, some a) → Frame w₁ w₂
  unfolding await_call
  await_call-Frame h =
      Frame-trans (record { effects = refl; calls = refl; session = refl; context = refl })
        (Frame-refl (ap (λ q. q.0) h))

  pub pass_gate-some :
      {w₁ w₂ : World} {e : Notification}
      → pass_gate answers w₁ ≡ (w₂, some e)
      → Frame w₁ w₂
        × (w₁.live.poisoned ≡ false)
        × (w₂.live.poisoned ≡ false)
        × (w₁.live.context ≡ some e)
  unfolding pass_gate
  pass_gate-some {w₁} {w₂} {e} h =
      let ready = λ (w : World). w.live.running && not w.live.poisoned in
      let h₁ = observe-then (λ w. w.live.context) _ (observe-then ready _ h) in
      let (b, h₂) = ensure-then (is_some w₁.live.context && ready w₁) _ h₁ in
      let (w₃, a, r, h₃) = after-some (await_call answers w₁) _ h₂ in
      let (c, h₄) =
        ensure-then (not w₃.live.poisoned) _ (observe-then (λ w. not w.live.poisoned) _ h₃) in
      let (p, q) = give-some w₁.live.context h₄ in
      (
        Frame-trans (await_call-Frame r) (Frame-refl p),
        ground (arith, b),
        subst (λ w. w.live.poisoned ≡ false) p (ground (arith, c)),
        q,
      )

  -- The answer of an awaited call, and the number of the next one.
  pub await_call-some :
      {a : Awaited} (w₁ w₂ : World)
      → await_call answers w₁ ≡ (w₂, some a)
      → (a ≡ answers w₁.asked)
        × (w₂.asked ≡ suc w₁.asked)
        × (w₂.live.poisoned ≡ false → w₁.live.poisoned ≡ false)
  unfolding await_call
  await_call-some {a} w₁ w₂ h =
      let p = ap (λ q. q.0) h in
      let (c, same) = if-some (answers w₁.asked).resolves (answers w₁.asked) (ap (λ q. q.1) h) in
      (
        sym same,
        ap (λ w. w.asked) (sym p),
        λ sound. ground (arith, ap (λ w. w.live.poisoned) p ∙ sound),
      )

  pub pass_gate-asked :
      {e : Notification} (w₁ w₂ : World)
      → pass_gate answers w₁ ≡ (w₂, some e)
      → w₂.asked ≡ suc w₁.asked
  unfolding pass_gate
  pass_gate-asked w₁ w₂ h =
      let ready = λ (w : World). w.live.running && not w.live.poisoned in
      let h₁ = observe-then (λ w. w.live.context) _ (observe-then ready _ h) in
      let (b, h₂) = ensure-then (is_some w₁.live.context && ready w₁) _ h₁ in
      after-then (await_call answers w₁) _ h₂ λ w₃ a r h₃.
        let (c, h₄) =
          ensure-then (not w₃.live.poisoned) _ (observe-then (λ w. not w.live.poisoned) _ h₃) in
        let (p, q) = give-some w₁.live.context h₄ in
        ap (λ w. w.asked) (sym p) ∙ (await_call-some w₁ w₃ r).1
