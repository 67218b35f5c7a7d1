-- ===== src/Scheduler/Memory.antt =====
-- scheduler/chat-worker.ts: what the place that a worker has reached tells of its acts so far.
use whats_app_mcp_server.Base.{
  Bool, true, false, ◌||◌, some, List, [], ◌∷◌, ◌++◌, ◌≡◌, ◌⊎◌, arith, inl, inr, Option-cases,
}
use whats_app_mcp_server.Scheduler.Machine.{
  Act, gated, found, opened, began, prompted, appended, completed, paused,
}
use whats_app_mcp_server.Scheduler.Protocol.{
  Place, Phase, idle, settling, known, open_turn, open_known, ready, finished, stopped, step, place,
}

abbrev is_act : Act → Act → Bool
is_act found found = true
is_act opened opened = true
is_act began began = true
is_act prompted prompted = true
is_act completed completed = true
is_act paused paused = true
is_act _ _ = false

-- The act is among those.
abbrev pub has : Act → List Act → Bool
has a [] = false
has a (b ∷ bs) = is_act a b || has a bs

-- The acts that every effect of a worker is one of.
abbrev pub is_effect : Act → Bool
is_effect opened = true
is_effect began = true
is_effect prompted = true
is_effect appended = true
is_effect completed = true
is_effect paused = true
is_effect _ = false

abbrev Told : Phase → List Act → Type 0
Told idle l =
    (has found l ≡ false)
    × (has opened l ≡ false)
    × (has began l ≡ false)
    × (has prompted l ≡ false)
    × (has completed l ≡ false)
    × (has paused l ≡ false)
Told settling l =
    (has opened l ≡ false)
    × (has prompted l ≡ false)
    × (has completed l ≡ false)
    × (has paused l ≡ false)
Told known l =
    (has found l ≡ false)
    × (has opened l ≡ false)
    × (has prompted l ≡ false)
    × (has completed l ≡ false)
    × (has paused l ≡ false)
Told open_turn l =
    (has found l ≡ false)
    × (has prompted l ≡ false)
    × (has completed l ≡ false)
    × (has paused l ≡ false)
Told open_known l =
    (has found l ≡ false)
    × (has prompted l ≡ false)
    × (has completed l ≡ false)
    × (has paused l ≡ false)
Told ready l =
    (has found l ≡ false)
    × (has began l ≡ true)
    × (has prompted l ≡ false)
    × (has completed l ≡ false)
    × (has paused l ≡ false)
Told finished l =
    (has completed l ≡ true)
    × ((has found l ≡ false) ⊎ (has opened l ≡ false) × (has prompted l ≡ false))
    × (has paused l ≡ false)
Told stopped l =
    (has paused l ≡ true)
    × ((has found l ≡ false) ⊎ (has opened l ≡ false) × (has prompted l ≡ false))
    × (has completed l ≡ false)
Told _ l = (has found l ≡ false) × (has completed l ≡ false) × (has paused l ≡ false)

step-Told :
    (from ph : Phase) (g h : Bool) (a : Act) (l : List Act)
    → step (from, g) a ≡ some (ph, h)
    → Told from l
    → Told ph (a ∷ l)
unfolding step
step-Told from ph g h a l e t = ground arith

place-Told : (l : List Act) (ph : Phase) (g : Bool) → place l ≡ some (ph, g) → Told ph l
unfolding place
place-Told [] ph g e = ground arith
place-Told (a ∷ l) ph g e = elim (Option-cases (place l)) [
  | inl nowhere ↦ cc
  | inr ((from, h), there) ↦
      step-Told from ph h g a l (ground (arith, e, there)) (place-Told l from h there)
]

-- A trace that leads somewhere led somewhere before its latest acts.
before-place :
    (later l : List Act) (x : Place)
    → place (later ++ l) ≡ some x
    → (y : Place) × (place l ≡ some y)
unfolding place
before-place [] l x e = (x, e)
before-place (a ∷ later) l x e = elim (Option-cases (place (later ++ l))) [
  | inl nowhere ↦ cc
  | inr (y, there) ↦ before-place later l y there
]

effect_step :
    (ph : Phase) (g : Bool) (a : Act) (x : Place)
    → is_effect a ≡ true
    → step (ph, g) a ≡ some x
    → g ≡ true
unfolding step
effect_step ph g a x effect e = ground arith

open_gate :
    (l : List Act) (ph : Phase)
    → place l ≡ some (ph, true)
    → (earlier : List Act) × (l ≡ gated ∷ earlier)
unfolding place step
open_gate [] ph e = ground arith
open_gate (a ∷ l) ph e = (l, ground arith)

-- Every effect comes right after a gate.
pub place-effect :
    (later l : List Act) (a : Act) (x : Place)
    → is_effect a ≡ true
    → place (later ++ a ∷ l) ≡ some x
    → (earlier : List Act) × (l ≡ gated ∷ earlier)
unfolding place
place-effect later l a x effect e =
    let (y, there) = before-place later (a ∷ l) x e in
    elim (Option-cases (place l)) [
      | inl nowhere ↦ cc
      | inr ((ph, g), at) ↦
          open_gate l ph
            (ground (arith, at, effect_step ph g a y effect (ground (arith, at, there))))
    ]

prompted-step : (ph : Phase) (g : Bool) (x : Place) → step (ph, g) prompted ≡ some x → ph ≡ ready
unfolding step
prompted-step ph g x e = ground arith

-- A prompt comes after the turn has begun, and no other came before it.
pub place-prompted :
    (later l : List Act) (x : Place)
    → place (later ++ prompted ∷ l) ≡ some x
    → (has began l ≡ true) × (has prompted l ≡ false) × (has found l ≡ false)
unfolding place
place-prompted later l x e =
    let (y, there) = before-place later (prompted ∷ l) x e in
    elim (Option-cases (place l)) [
      | inl nowhere ↦ cc
      | inr ((ph, g), at) ↦
          let waits = prompted-step ph g y (ground (arith, at, there)) in
          let (new, begun, first, _, _) = place-Told l ready g (ground (arith, at, waits)) in
          (begun, first, new)
    ]

-- Once a marker of the event was found no session is opened and nothing prompted, and no event is
-- both completed and paused.
pub place-found :
    (l : List Act) (x : Place)
    → place l ≡ some x
    → ((has found l ≡ false) ⊎ (has opened l ≡ false) × (has prompted l ≡ false))
      × ((has completed l ≡ false) ⊎ (has paused l ≡ false))
place-found l (ph, g) e = ground (arith, place-Told l ph g e)

pub place-completed :
    (l : List Act) (g : Bool) → place l ≡ some (finished, g) → has completed l ≡ true
place-completed l g e = (place-Told l finished g e).0

pub place-paused : (l : List Act) (g : Bool) → place l ≡ some (stopped, g) → has paused l ≡ true
place-paused l g e = (place-Told l stopped g e).0
