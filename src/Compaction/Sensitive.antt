-- ===== src/Compaction/Sensitive.antt =====
-- `containsSensitive` of compaction/checkpoint.ts. The patterns of `sensitive` are a parameter: whether
-- one of them is found in a text.
use whats_app_mcp_server.Base.{
  ℕ, zero, suc, ◌+◌, ◌≤◌, ◌≡◌, ◌↔◌, refl, arith, Bool, true, false, ◌||◌, List, [], ◌∷◌,
  if◌then◌else◌, ltb, Text,
}
use whats_app_mcp_server.Json.{
  Json, null, boolean, number, string, array, object, Items, nil, cons, Members, end, member,
}

-- `pending.push(...xs)`, the top first.
unfoldable pub push_items : Items → List Json → List Json
push_items nil pending = pending
push_items (cons x xs) pending = push_items xs (x ∷ pending)

-- The same of `Object.values`.
unfoldable pub push_values : Members → List Json → List Json
push_values end pending = pending
push_values (member k v ms) pending = push_values ms (v ∷ pending)

-- The loop, with so many values to go until the limit.
unfoldable pub find_sensitive : (Text → Bool) → ℕ → List Json → Bool
find_sensitive p n [] = false
find_sensitive p zero (v ∷ pending) = true
find_sensitive p (suc n) (string t ∷ pending) =
    let rest = find_sensitive p n pending in if p t then true else rest
find_sensitive p (suc n) (array xs ∷ pending) = find_sensitive p n (push_items xs pending)
find_sensitive p (suc n) (object ms ∷ pending) = find_sensitive p n (push_values ms pending)
find_sensitive p (suc n) (null ∷ pending) = find_sensitive p n pending
find_sensitive p (suc n) (boolean b ∷ pending) = find_sensitive p n pending
find_sensitive p (suc n) (number x ∷ pending) = find_sensitive p n pending

unfoldable pub contains_sensitive : (Text → Bool) → Json → Bool
contains_sensitive p v = find_sensitive p 4096 (v ∷ [])

-- How many values a value has, itself included.
unfoldable mutual
  pub weight : Json → ℕ
  weight null = 1
  weight (boolean b) = 1
  weight (number n) = 1
  weight (string t) = 1
  weight (array xs) = suc (weight_items xs)
  weight (object ms) = suc (weight_members ms)

  pub weight_items : Items → ℕ
  weight_items nil = 0
  weight_items (cons x xs) = weight x + weight_items xs

  pub weight_members : Members → ℕ
  weight_members end = 0
  weight_members (member k v ms) = weight v + weight_members ms

-- Whether a text with the property stands anywhere in a value; keys are not looked at.
unfoldable mutual
  pub has_text : (Text → Bool) → Json → Bool
  has_text p null = false
  has_text p (boolean b) = false
  has_text p (number n) = false
  has_text p (string t) = p t
  has_text p (array xs) = has_text_items p xs
  has_text p (object ms) = has_text_members p ms

  pub has_text_items : (Text → Bool) → Items → Bool
  has_text_items p nil = false
  has_text_items p (cons x xs) = has_text p x || has_text_items p xs

  pub has_text_members : (Text → Bool) → Members → Bool
  has_text_members p end = false
  has_text_members p (member k v ms) = has_text p v || has_text_members p ms

weights : List Json → ℕ
weights [] = 0
weights (v ∷ vs) = weight v + weights vs

module _ (p : Text → Bool) where
  some_text : List Json → Bool
  some_text [] = false
  some_text (v ∷ vs) = has_text p v || some_text vs

  weights-push_items :
      (xs : Items) (vs : List Json) → weights (push_items xs vs) ≡ weight_items xs + weights vs
  unfolding weights push_items weight
  weights-push_items nil vs = omega arith
  weights-push_items (cons x xs) vs = omega (arith, weights-push_items xs (x ∷ vs))

  weights-push_values :
      (ms : Members) (vs : List Json) → weights (push_values ms vs) ≡ weight_members ms + weights vs
  unfolding weights push_values weight
  weights-push_values end vs = omega arith
  weights-push_values (member k v ms) vs = omega (arith, weights-push_values ms (v ∷ vs))

  some_text-push_items :
      (xs : Items) (vs : List Json)
      → some_text (push_items xs vs) ≡ (has_text_items p xs || some_text vs)
  unfolding some_text push_items has_text
  some_text-push_items nil vs = refl
  some_text-push_items (cons x xs) vs = ground (arith, some_text-push_items xs (x ∷ vs))

  some_text-push_values :
      (ms : Members) (vs : List Json)
      → some_text (push_values ms vs) ≡ (has_text_members p ms || some_text vs)
  unfolding some_text push_values has_text
  some_text-push_values end vs = refl
  some_text-push_values (member k v ms) vs = ground (arith, some_text-push_values ms (v ∷ vs))

  weight-positive : (v : Json) → 1 ≤ weight v
  unfolding weight
  weight-positive null = omega arith
  weight-positive (boolean b) = omega arith
  weight-positive (number n) = omega arith
  weight-positive (string t) = omega arith
  weight-positive (array xs) = omega arith
  weight-positive (object ms) = omega arith

  -- One value is replaced by what is in it.
  opened :
      (n w a b : ℕ) (x c d e : Bool)
      → x ≡ (ltb n w || c)
      → w ≡ a + b
      → c ≡ (d || e)
      → x ≡ (ltb (suc n) (suc a + b) || (d || e))
  opened n w a b x c d e h k l = ground arith

  too_many : (a b : ℕ) (c : Bool) → 1 ≤ a → true ≡ (ltb 0 (a + b) || c)
  too_many a b c h = ground arith

  passed :
      (n w : ℕ) (x y d e : Bool)
      → x ≡ (ltb n w || e)
      → y ≡ (if d then true else x)
      → y ≡ (ltb (suc n) (1 + w) || (d || e))
  passed n w x y d e h k = ground arith

  find_sensitive_lem :
      (n : ℕ) (vs : List Json) → find_sensitive p n vs ≡ (ltb n (weights vs) || some_text vs)
  unfolding find_sensitive weights some_text weight has_text
  find_sensitive_lem zero [] = refl
  find_sensitive_lem (suc n) [] = ground arith
  find_sensitive_lem zero (v ∷ vs) =
      too_many (weight v) (weights vs) (has_text p v || some_text vs) (weight-positive v)
  find_sensitive_lem (suc n) (null ∷ vs) =
      passed n (weights vs) (find_sensitive p n vs) _ false (some_text vs) (find_sensitive_lem n vs)
        refl
  find_sensitive_lem (suc n) (boolean b ∷ vs) =
      passed n (weights vs) (find_sensitive p n vs) _ false (some_text vs) (find_sensitive_lem n vs)
        refl
  find_sensitive_lem (suc n) (number x ∷ vs) =
      passed n (weights vs) (find_sensitive p n vs) _ false (some_text vs) (find_sensitive_lem n vs)
        refl
  find_sensitive_lem (suc n) (string t ∷ vs) =
      passed n (weights vs) (find_sensitive p n vs) _ (p t) (some_text vs) (find_sensitive_lem n vs)
        refl
  find_sensitive_lem (suc n) (array xs ∷ vs) =
      opened n (weights (push_items xs vs)) (weight_items xs) (weights vs) _
        (some_text (push_items xs vs)) (has_text_items p xs) (some_text vs)
        (find_sensitive_lem n (push_items xs vs)) (weights-push_items xs vs)
        (some_text-push_items xs vs)
  find_sensitive_lem (suc n) (object ms ∷ vs) =
      opened n (weights (push_values ms vs)) (weight_members ms) (weights vs) _
        (some_text (push_values ms vs)) (has_text_members p ms) (some_text vs)
        (find_sensitive_lem n (push_values ms vs)) (weights-push_values ms vs)
        (some_text-push_values ms vs)

  -- A value passes as free of secrets exactly if it has at most 4096 values in it and no text in it,
  -- at any depth, matches a pattern: a value too large to be looked through counts as sensitive.
  pub contains_sensitive_iff :
      (v : Json) → (contains_sensitive p v ≡ false) ↔ ((weight v ≤ 4096) × (has_text p v ≡ false))
  unfolding contains_sensitive weights some_text
  contains_sensitive_iff v = ground (arith, find_sensitive_lem 4096 (v ∷ []))
