-- ===== src/Journal/Live.antt =====
-- The live state of a session in pi/tool-journal-extension.ts, and the steps that its hooks take.
-- What an awaited call answers, and what has happened meanwhile, is given by number: the answers.
use whats_app_mcp_server.Base.{
  ℕ, suc, Bool, true, not, ◌&&◌, ◌||◌, Option, none, some, List, ◌∷◌, is_some, Text, if◌then◌else◌,
}
use whats_app_mcp_server.Base.{Dict}
use whats_app_mcp_server.Domain.Events.{Notification}
use whats_app_mcp_server.Domain.Mutations.{MutationState, Progress, uncertain}
use whats_app_mcp_server.Scheduler.Work.{Ownership, SessionBinding}

-- `Live`, for the session's own queue; a turn's context is the event that it works on.
pub record Live : Type 0 where
  pub session : SessionBinding
  pub context : Option Notification
  pub running : Bool
  pub poisoned : Bool
  pub registered : Bool
  pub calls : Dict MutationState

-- What has been done in Redis' journal and in the session's file. A record there holds the
-- fingerprint of the event.
pub data Effect : Type 0 where
  begins : MutationState → Effect
  confirms : MutationState → Text → Effect
  marks : MutationState → Effect
  records : SessionBinding → Notification → MutationState → Effect

-- The answer of an awaited call: whether it resolves, with which boolean, with which records, who
-- owns the work afterwards, and whether the session has been poisoned meanwhile.
pub record Awaited : Type 0 where
  pub resolves : Bool
  pub granted : Bool
  pub journal : List MutationState
  pub ownership : Ownership
  pub disturbed : Bool

pub record World : Type 0 where
  pub live : Live
  pub ownership : Ownership
  pub effects : List Effect
  pub asked : ℕ

-- A step; none throws.
abbrev pub Act : Type 0 → Type 0
Act A = World → World × Option A

unfoldable pub after : {A B : Type 0} → World × Option A → (A → Act B) → World × Option B
after (w, none) f = (w, none)
after (w, some a) f = f a w

infixl 5 ◌>>=◌ ◌>>◌
abbrev pub ◌>>=◌ : {A B : Type 0} → Act A → (A → Act B) → Act B
(m >>= f) w = after (m w) f

abbrev pub ◌>>◌ : {A B : Type 0} → Act A → Act B → Act B
(m >> k) w = after (m w) λ _. k

unfoldable pub give : {A : Type 0} → Option A → Act A
give o w = (w, o)

unfoldable pub ensure : Bool → Act (Unit {0})
ensure b w = (w, if b then some tt else none)

unfoldable pub observe : {A : Type 0} → (World → A) → Act A
observe f w = (w, some (f w))

unfoldable pub modify : (World → World) → Act (Unit {0})
modify f w = (f w, some tt)

abbrev pub poison_if : Bool → World → World
poison_if b w = record w { live = record w.live { poisoned = b || w.live.poisoned } }

unfoldable pub poison_live : World → World
poison_live w = record w { live = record w.live { poisoned = true } }

abbrev pub did : Effect → World → World
did e w = record w { effects = e ∷ w.effects }

abbrev pub with_progress : Progress → MutationState → MutationState
with_progress p s = record s { progress = p }

module _ (answers : ℕ → Awaited) where
  -- An awaited call.
  unfoldable pub await_call : Act Awaited
  await_call w =
      let a = answers w.asked in
      (
        record w {
          live = record w.live { poisoned = a.disturbed || w.live.poisoned };
          ownership = a.ownership;
          asked = suc w.asked;
        },
        if a.resolves then some a else none,
      )

  -- An awaited call whose answer has to be `true`, and what it has done.
  unfoldable pub ask_granted : Effect → Act (Unit {0})
  unfolding await_call ensure modify
  ask_granted e = do a ← await_call; ensure a.granted; modify (did e)

  -- `gate`.
  unfoldable pub pass_gate : Act Notification
  unfolding await_call ensure observe give
  pass_gate = do
    ready ← observe λ w. w.live.running && not w.live.poisoned
    context ← observe λ w. w.live.context
    ensure (is_some context && ready)
    a ← await_call
    still ← observe λ w. not w.live.poisoned
    ensure still
    give context

  -- `record`.
  unfoldable pub record_state : MutationState → Act (Unit {0})
  unfolding await_call ensure observe give pass_gate modify
  record_state s = do
    e ← pass_gate
    a ← await_call
    modify λ w. did (records w.live.session e s) w
    f ← pass_gate
    give (some tt)

  -- `uncertain`.
  unfoldable pub mark_uncertain : MutationState → Act (Unit {0})
  unfolding pass_gate ask_granted record_state modify
  mark_uncertain s = do
    e ← pass_gate
    ask_granted (marks s)
    record_state (with_progress uncertain s)
    modify poison_live
