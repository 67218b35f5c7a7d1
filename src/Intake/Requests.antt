-- ===== src/Intake/Requests.antt =====
-- intake/server.ts: many requests at once. A system is the server with the requests that wait, and
-- an input is what happens next to one of them, or to the server.
use whats_app_mcp_server.Base.{
  ℕ, zero, suc, ◌+◌, ◌≤◌, ◌≡◌, Bool, true, Option, none, some, List, [], ◌∷◌, refl, length, arith,
  Option-cases, inl, inr,
}
use whats_app_mcp_server.Domain.Errors.{Result}
use whats_app_mcp_server.Intake.Server.{
  HttpConfig, Request, Acceptance, Stage, reading, accepting, answered, Server, Gate, enter, begin,
  body_read, check_body, stored, stop_intake,
}

pub data Input : Type 0 where
  arrives : Bool → Request → Input
  reads : ℕ → Bool → ℕ → Result (List ℕ) → Input
  stores : ℕ → Option Acceptance → Input
  stops : Input

abbrev pub System : Type 0
System = Server × List Stage

-- The request at a place, and the others.
unfoldable pub pick : ℕ → List Stage → Option (Stage × List Stage)
pick n [] = none
pick zero (x ∷ xs) = some (x, xs)
pick (suc n) (x ∷ xs) = elim (pick n xs) [ none ↦ none | some (y, ys) ↦ some (y, x ∷ ys) ]

-- A request that has its answer is gone.
abbrev wait_with : List Stage → Server × Stage → System
wait_with xs (s, answered a) = (s, xs)
wait_with xs (s, reading h id) = (s, reading h id ∷ xs)
wait_with xs (s, accepting e) = (s, accepting e ∷ xs)

-- The requests that wait for the store.
abbrev pub count_accepting : List Stage → ℕ
count_accepting [] = 0
count_accepting (accepting e ∷ xs) = suc (count_accepting xs)
count_accepting (_ ∷ xs) = count_accepting xs

module _ (http : HttpConfig) (g : Gate) where
  abbrev on_body : System → Bool → ℕ → Result (List ℕ) → Option (Stage × List Stage) → System
  on_body (s, xs) up now body (some (reading h id, ys)) =
      wait_with ys (body_read g s up now h id body)
  on_body x up now body _ = x

  abbrev on_store : System → Option Acceptance → Option (Stage × List Stage) → System
  on_store (s, xs) a (some (accepting e, ys)) = wait_with ys (stored s e a)
  on_store x a _ = x

  -- An input that meets no request in its stage changes nothing.
  unfoldable pub happens : System → Input → System
  happens (s, xs) (arrives up r) = wait_with xs (enter http up s r)
  happens (s, xs) (reads n up now body) = on_body (s, xs) up now body (pick n xs)
  happens (s, xs) (stores n a) = on_store (s, xs) a (pick n xs)
  happens (s, xs) stops = (stop_intake s, xs)

  unfoldable pub happen : System → List Input → System
  happen x [] = x
  happen x (i ∷ is) = happen (happens x i) is

pick-length :
    (n : ℕ) (xs : List Stage) (y : Stage) (ys : List Stage)
    → pick n xs ≡ some (y, ys)
    → length xs ≡ length ys + 1
unfolding pick
pick-length n [] y ys e = ground arith
pick-length zero (x ∷ xs) y ys e = ground arith
pick-length (suc n) (x ∷ xs) y ys e = elim (Option-cases (pick n xs)) [
  | inl none_there ↦ ground (arith, e, none_there)
  | inr ((z, zs), there) ↦ ground (arith, e, there, pick-length n xs z zs there)
]

pick-count_accepting :
    (n : ℕ) (xs : List Stage) (y : Stage) (ys : List Stage)
    → pick n xs ≡ some (y, ys)
    → count_accepting xs ≡ count_accepting (y ∷ ys)
unfolding pick
pick-count_accepting n [] y ys e = ground arith
pick-count_accepting zero (x ∷ xs) y ys e = ground arith
pick-count_accepting (suc n) (x ∷ xs) y ys e = elim (Option-cases (pick n xs)) [
  | inl none_there ↦ ground (arith, e, none_there)
  | inr ((z, zs), there) ↦ ground (arith, e, there, pick-count_accepting n xs z zs there)
]

-- What a stopped server does not take on.
abbrev pub Closes : System → System → Type 0
Closes x y =
    ((y.0).stopping ≡ true)
    × (length y.1 ≤ length x.1)
    × (count_accepting y.1 ≤ count_accepting x.1)

abbrev Picked : List Stage → Option (Stage × List Stage) → Type 0
Picked xs o =
    (y : Stage) (ys : List Stage)
    → o ≡ some (y, ys)
    → (length xs ≡ length ys + 1) × (count_accepting xs ≡ count_accepting (y ∷ ys))

-- As many requests are active as wait, and not more than the configured number.
pub record IsCounted (http : HttpConfig) (x : System) : Type 0 where
  pub counted : (x.0).active ≡ length x.1
  pub bounded : (x.0).active ≤ http.max_inflight

module _ (http : HttpConfig) (g : Gate) where
  on_body-IsCounted :
      (s : Server) (xs : List Stage) (up : Bool) (now : ℕ) (body : Result (List ℕ))
      (o : Option (Stage × List Stage))
      → ((y : Stage) (ys : List Stage) → o ≡ some (y, ys) → length xs ≡ length ys + 1)
      → IsCounted http (s, xs)
      → IsCounted http (on_body http g (s, xs) up now body o)
  unfolding body_read
  on_body-IsCounted s xs up now body none l c = c
  on_body-IsCounted s xs up now body (some (reading h id, ys)) l c =
      ground (arith, l _ _ refl, c.counted, c.bounded)
  on_body-IsCounted s xs up now body (some (accepting e, ys)) l c = c
  on_body-IsCounted s xs up now body (some (answered a, ys)) l c = c

  on_store-IsCounted :
      (s : Server) (xs : List Stage) (a : Option Acceptance) (o : Option (Stage × List Stage))
      → ((y : Stage) (ys : List Stage) → o ≡ some (y, ys) → length xs ≡ length ys + 1)
      → IsCounted http (s, xs)
      → IsCounted http (on_store http g (s, xs) a o)
  unfolding stored
  on_store-IsCounted s xs a none l c = c
  on_store-IsCounted s xs a (some (accepting e, ys)) l c =
      ground (arith, l _ _ refl, c.counted, c.bounded)
  on_store-IsCounted s xs a (some (reading h id, ys)) l c = c
  on_store-IsCounted s xs a (some (answered b, ys)) l c = c

  happens-IsCounted :
      (x : System) (i : Input) → IsCounted http x → IsCounted http (happens http g x i)
  unfolding happens enter begin stop_intake
  happens-IsCounted (s, xs) (arrives up r) c = ground arith
  happens-IsCounted (s, xs) (reads n up now body) c =
      on_body-IsCounted s xs up now body (pick n xs) (pick-length n xs) c
  happens-IsCounted (s, xs) (stores n a) c =
      on_store-IsCounted s xs a (pick n xs) (pick-length n xs) c
  happens-IsCounted (s, xs) stops c = ground arith

  -- However requests, bodies, answers of the store and the stop of the intake interleave, as many
  -- requests are active as wait, and never more than the configured number: each request that was
  -- counted is counted off when it has its answer.
  pub happen-IsCounted :
      (x : System) (is : List Input) → IsCounted http x → IsCounted http (happen http g x is)
  unfolding happen
  happen-IsCounted x [] c = c
  happen-IsCounted x (i ∷ is) c = happen-IsCounted (happens http g x i) is (happens-IsCounted x i c)

  on_body-Closes :
      (s : Server) (xs : List Stage) (up : Bool) (now : ℕ) (body : Result (List ℕ))
      (o : Option (Stage × List Stage))
      → Picked xs o
      → s.stopping ≡ true
      → Closes (s, xs) (on_body http g (s, xs) up now body o)
  unfolding body_read check_body
  on_body-Closes s xs up now body none l h = ground arith
  on_body-Closes s xs up now body (some (reading k id, ys)) l h = ground (arith, l _ _ refl)
  on_body-Closes s xs up now body (some (accepting e, ys)) l h = ground arith
  on_body-Closes s xs up now body (some (answered a, ys)) l h = ground arith

  on_store-Closes :
      (s : Server) (xs : List Stage) (a : Option Acceptance) (o : Option (Stage × List Stage))
      → Picked xs o
      → s.stopping ≡ true
      → Closes (s, xs) (on_store http g (s, xs) a o)
  unfolding stored
  on_store-Closes s xs a none l h = ground arith
  on_store-Closes s xs a (some (accepting e, ys)) l h = ground (arith, l _ _ refl)
  on_store-Closes s xs a (some (reading k id, ys)) l h = ground arith
  on_store-Closes s xs a (some (answered b, ys)) l h = ground arith

  picked : (n : ℕ) (xs : List Stage) → Picked xs (pick n xs)
  picked n xs y ys e = (pick-length n xs y ys e, pick-count_accepting n xs y ys e)

  happens-Closes : (x : System) (i : Input) → (x.0).stopping ≡ true → Closes x (happens http g x i)
  unfolding happens enter begin stop_intake
  happens-Closes (s, xs) (arrives up r) h = ground arith
  happens-Closes (s, xs) (reads n up now body) h =
      on_body-Closes s xs up now body (pick n xs) (picked n xs) h
  happens-Closes (s, xs) (stores n a) h = on_store-Closes s xs a (pick n xs) (picked n xs) h
  happens-Closes (s, xs) stops h = ground arith

  -- A server that has been stopped stays so, and takes nothing on, whatever happens: no more
  -- requests wait than before, and no event of theirs goes to the store beyond those that went
  -- there already.
  pub happen-Closes :
      (x : System) (is : List Input) → (x.0).stopping ≡ true → Closes x (happen http g x is)
  unfolding happen
  happen-Closes x [] h = ground arith
  happen-Closes x (i ∷ is) h =
      let step = happens-Closes x i h in
      let rest = happen-Closes (happens http g x i) is step.0 in
      (rest.0, omega (arith, step.1, rest.1), omega (arith, step.2, rest.2))
