-- ===== src/Redis/Decimal.antt =====
-- The decimal counters of redis/scripts.ts: `inc` and `less`, which never pass through a float.
use whats_app_mcp_server.Base.{
  ℕ, zero, suc, ◌+◌, ◌-◌, ◌*◌, ◌≤◌, ◌<◌, ◌≡◌, ◌↔◌, ◌⊎◌, inl, inr, Bool, true, false, ◌&&◌, ◌||◌, [],
  ◌∷◌, refl, ap, subst, ltb, ◌==◌, ==_iff, if◌then◌else◌, length, Text, arith, Bool-cases,
}

-- The loop of `inc`, which runs from the last character to the first: what is written so far, and
-- the carry. A digit is at least 48.
unfoldable pub inc_loop : Text → Text × ℕ
inc_loop [] = ([], 1)
inc_loop (c ∷ cs) =
    let (out, carry) = inc_loop cs in
    let d = c + carry - 48 in if d == 10 then (48 ∷ out, 1) else ((48 + d) ∷ out, 0)

unfoldable pub inc : Text → Text
unfolding inc_loop
inc s = let (out, carry) = inc_loop s in if carry == 1 then 49 ∷ out else out

-- Lua's `<` on strings: the order of the bytes.
unfoldable pub text_lt : Text → Text → Bool
text_lt xs [] = false
text_lt [] (y ∷ ys) = true
text_lt (x ∷ xs) (y ∷ ys) = ltb x y || x == y && text_lt xs ys

unfoldable pub less : Text → Text → Bool
unfolding text_lt
less a b = ltb (length a) (length b) || length a == length b && text_lt a b

-- The number that a text stands for.
unfoldable pub scale : ℕ → ℕ
scale zero = 1
scale (suc n) = 10 * scale n

unfoldable pub value : Text → ℕ
value [] = 0
value (c ∷ cs) = (c - 48) * scale (length cs) + value cs

abbrev pub IsDigits : Text → Type 0
IsDigits [] = Unit {0}
IsDigits (c ∷ cs) = (48 ≤ c) × (c ≤ 57) × IsDigits cs

-- A decimal numeral as JavaScript and `inc` write it: digits, and no zero in front.
abbrev pub IsNumeral : Text → Type 0
IsNumeral [] = ⊥
IsNumeral (c ∷ cs) = (49 ≤ c ⊎ (cs ≡ [])) × (48 ≤ c) × (c ≤ 57) × IsDigits cs

-- One step of the loop in numbers: `x` is the digit, `k` the carry from the digits behind it.
carry_value :
    (x k n v w : ℕ)
    → w + k * n ≡ v + 1
    → ((x + k) * n + w ≡ x * n + v + 1) × (x + k ≡ 10 → w + 10 * n ≡ x * n + v + 1)
carry_value x k n v w h = (omega arith, λ e. omega (arith, ap (λ (t : ℕ). t * n) e))

-- One more, up to the carry; and the output has as many digits.
inc_loop-value :
    (cs : Text)
    → IsDigits cs
    → (value (inc_loop cs).0 + (inc_loop cs).1 * scale (length cs) ≡ value cs + 1)
      × (length (inc_loop cs).0 ≡ length cs)
      × ((inc_loop cs).1 ≤ 1)
      × IsDigits (inc_loop cs).0
unfolding inc_loop value scale
inc_loop-value [] d = omega arith
inc_loop-value (c ∷ cs) d =
    let (sum, same, small, digits) = inc_loop-value cs d.2 in
    let scaled = ap scale same in
    let step = carry_value (c - 48) (inc_loop cs).1 (scale (length cs)) (value cs) _ sum in
    let shift : c + (inc_loop cs).1 - 48 ≡ c - 48 + (inc_loop cs).1 = omega arith in
    rw (shift, inc_loop)
      elim (Bool-cases (c - 48 + (inc_loop cs).1 == 10)) [
        | inl full ↦
            rw (full, inc_loop)
              (rw scaled (ground (arith, step.1 ((==_iff _ _).0 full), same, digits)))
        | inr more ↦
            rw (more, inc_loop) (rw scaled (rw sub_back (ground (arith, step.0, same, digits))))
      ]
  where
    sub_back : 48 + (c - 48 + (inc_loop cs).1) - 48 ≡ c - 48 + (inc_loop cs).1
    sub_back = omega arith

inc_digits-value : (s : Text) → IsDigits s → value (inc s) ≡ value s + 1
unfolding inc value
inc_digits-value s d = grind (arith, inc_loop-value s d)

value-lt : (s : Text) → IsDigits s → value s < scale (length s)
unfolding value scale
value-lt [] d = omega arith
value-lt (c ∷ cs) d = grind (arith, value-lt cs d.2)

-- The first digit decides, since what follows is below one of its units.
digit_lt : (x y n v w : ℕ) → x < y → v < n → x * n + v < y * n + w
digit_lt x y n v w h k = grind arith

text_lt-value :
    (a b : Text)
    → IsDigits a
    → IsDigits b
    → length a ≡ length b
    → (text_lt a b ≡ true) ↔ (value a < value b)
unfolding text_lt value
text_lt-value [] [] d e h = ground arith
text_lt-value [] (y ∷ ys) d e h = absurd (omega arith)
text_lt-value (x ∷ xs) [] d e h = absurd (omega arith)
text_lt-value (x ∷ xs) (y ∷ ys) d e h =
    let rest = text_lt-value xs ys d.2 e.2 (omega arith) in
    let n : ℕ = scale (length ys) in
    let small : value xs < n = subst (λ k. value xs < scale k) (omega arith) (value-lt xs d.2) in
    rw (ap scale (pred_eq h)) ground (
      arith,
      rest,
      digit_lt (x - 48) (y - 48) n (value xs) (value ys),
      digit_lt (y - 48) (x - 48) n (value ys) (value xs),
      small,
      value-lt ys e.2,
    )
  where
    pred_eq : length (x ∷ xs) ≡ length (y ∷ ys) → length xs ≡ length ys
    pred_eq e = omega arith

scale_mono : (m n : ℕ) → m ≤ n → scale m ≤ scale n
unfolding scale
scale_mono zero zero h = omega arith
scale_mono zero (suc n) h = omega (arith, scale_mono zero n (omega arith))
scale_mono (suc m) zero h = absurd (omega arith)
scale_mono (suc m) (suc n) h = omega (arith, scale_mono m n (omega arith))

IsNumeral-IsDigits : (s : Text) → IsNumeral s → IsDigits s
IsNumeral-IsDigits [] n = absurd n
IsNumeral-IsDigits (c ∷ cs) n = (n.1, n.2, n.3)

scale-le-value : (c : ℕ) (cs : Text) → 49 ≤ c → scale (length cs) ≤ value (c ∷ cs)
unfolding value
scale-le-value c cs h = grind arith

length_lt-value : (a b : Text) → IsNumeral a → IsNumeral b → length a < length b → value a < value b
length_lt-value a [] n m h = absurd m
length_lt-value [] (y ∷ ys) n m h = absurd n
length_lt-value (x ∷ xs) (y ∷ []) n m h = absurd (omega arith)
length_lt-value (x ∷ xs) (y ∷ z ∷ ys) n (inl big, d, e, f) h = omega (
  arith,
  value-lt (x ∷ xs) (n.1, n.2, n.3),
  scale_mono (length (x ∷ xs)) (length (z ∷ ys)) (omega arith),
  scale-le-value y (z ∷ ys) big,
)
length_lt-value (x ∷ xs) (y ∷ z ∷ ys) n (inr last, d, e, f) h = absurd (cc)

-- `less` decides the order of the numbers, at any number of digits.
pub less-value : (a b : Text) → IsNumeral a → IsNumeral b → (less a b ≡ true) ↔ (value a < value b)
unfolding less
less-value a b n m = ground (
  arith,
  length_lt-value a b n m,
  length_lt-value b a m n,
  text_lt-value a b (IsNumeral-IsDigits a n) (IsNumeral-IsDigits b m),
)

inc-IsNumeral : (s : Text) → IsNumeral s → IsNumeral (inc s)
unfolding inc inc_loop
inc-IsNumeral [] n = absurd n
inc-IsNumeral (c ∷ []) n = ground arith
inc-IsNumeral (c ∷ b ∷ cs) n = grind (arith, inc_loop-value (b ∷ cs) n.3)

-- `inc` adds one, with no bound on the number of digits, and writes a numeral again.
pub inc-value : (s : Text) → IsNumeral s → (value (inc s) ≡ value s + 1) × IsNumeral (inc s)
inc-value s n = (inc_digits-value s (IsNumeral-IsDigits s n), inc-IsNumeral s n)

digits-injective :
    (a b : Text) → IsDigits a → IsDigits b → length a ≡ length b → value a ≡ value b → a ≡ b
unfolding value
digits-injective [] [] d e h v = refl
digits-injective [] (y ∷ ys) d e h v = absurd (omega arith)
digits-injective (x ∷ xs) [] d e h v = absurd (omega arith)
digits-injective (x ∷ xs) (y ∷ ys) d e h v =
    let same : length xs ≡ length ys = omega arith in
    let n : ℕ = scale (length ys) in
    let v' = rw (ap scale same) at v in
    let small : value xs < n = rw (ap scale same) at (value-lt xs d.2) in
    let head : x ≡ y = grind (
      arith,
      digit_lt (x - 48) (y - 48) n (value xs) (value ys),
      digit_lt (y - 48) (x - 48) n (value ys) (value xs),
      value-lt ys e.2,
    ) in
    let tail = digits-injective xs ys d.2 e.2 same (grind arith) in cc

-- A number has one numeral.
pub value-injective : (a b : Text) → IsNumeral a → IsNumeral b → value a ≡ value b → a ≡ b
value-injective a b n m h =
    digits-injective a b (IsNumeral-IsDigits a n) (IsNumeral-IsDigits b m)
      (grind (arith, length_lt-value a b n m, length_lt-value b a m n)) h
