-- ===== src/Compaction/Fractions.antt =====
-- compaction/orphan-recovery.ts: the fraction of a second that `timestampNs` reads.
use whats_app_mcp_server.Base.{
  ℕ, zero, suc, ◌+◌, ◌-◌, ◌*◌, ◌≤◌, ◌≡◌, ◌⊎◌, inl, inr, refl, sym, ap, subst, ◌∙◌, arith, true,
  false, ◌||◌, ◌==◌, ==_iff, Bool-cases, some, [], ◌∷◌, ◌++◌, length, Text,
}
use whats_app_mcp_server.Json.Inversion.{none-some, some-injective, if-known}
use whats_app_mcp_server.Domain.Patterns.{is_digit}
use whats_app_mcp_server.Intake.Timestamp.{skip_digits, skip_fraction, Zone, take_zone}
use whats_app_mcp_server.Redis.Decimal.{scale, value, IsDigits}
use whats_app_mcp_server.Compaction.Generation.{digits_of, power_of_ten, fraction_of}

-- The digits skipped are in front of the rest.
skip_digits-Front :
    (n : ℕ) (t : Text)
    → (ds : Text) × (t ≡ ds ++ (skip_digits n t).1)
      × (length ds ≡ (skip_digits n t).0)
      × (length ds ≤ n)
      × IsDigits ds
unfolding skip_digits
skip_digits-Front zero t = ([], refl, refl, omega arith, tt)
skip_digits-Front (suc n) [] = ([], refl, refl, omega arith, tt)
skip_digits-Front (suc n) (c ∷ cs) = elim (Bool-cases (is_digit c)) [
  | inl d ↦
      rw (d, skip_digits)
        (let (ds, e, l, b, g) = skip_digits-Front n cs in
          (
            c ∷ ds,
            ap (λ z. c ∷ z) e,
            omega (arith, l),
            omega (arith, b),
            (ground (arith, d), ground (arith, d), g),
          ))
  | inr d ↦ rw (d, skip_digits) ([], refl, refl, omega arith, tt)
]

zone_first : (c : ℕ) (cs : Text) (zone : Zone) → take_zone (c ∷ cs) ≡ some zone → is_digit c ≡ false
unfolding take_zone
zone_first c cs zone =
    if-known (c == b'Z') _ _ (λ e _. ground (arith, e))
      (λ _.
        if-known (c == b'+' || c == b'-') _ _ (λ e _. ground (arith, e))
          (λ _ k. absurd (none-some k)))

parts : {a b m n : ℕ} {z : Text} → a ≡ b → m ≡ n → ◌≡◌ {A = ℕ × ℕ × Text} (a, m, z) (b, n, z)
parts {b} {m} {z} e f = ap (λ a. (a, m, z)) e ∙ ap (λ n. (b, n, z)) f

digits_of_lem :
    (ds z : Text) (zone : Zone)
    → IsDigits ds
    → take_zone z ≡ some zone
    → (acc n : ℕ)
    → digits_of acc n (ds ++ z) ≡ (acc * scale (length ds) + value ds, n + length ds, z)
unfolding digits_of scale value take_zone
digits_of_lem [] [] zone d h acc n = absurd (none-some h)
digits_of_lem [] (c ∷ cs) zone d h acc n =
    rw (zone_first c cs zone h, digits_of) (parts (omega arith) (omega arith))
digits_of_lem (c ∷ ds) z zone d h acc n =
    rw (digit, digits_of)
      (digits_of_lem ds z zone d.2 h (10 * acc + (c - 48)) (n + 1)
        ∙ parts (grind arith) (omega arith))
  where
    digit : is_digit c ≡ true
    digit = ground arith

digits-front :
    (ds z : Text) (zone : Zone)
    → IsDigits ds
    → take_zone z ≡ some zone
    → digits_of 0 0 (ds ++ z) ≡ (value ds, length ds, z)
digits-front ds z zone d q = digits_of_lem ds z zone d q 0 0 ∙ parts (omega arith) (omega arith)

power_of_ten_lem : (n : ℕ) → power_of_ten n ≡ scale n
unfolding power_of_ten scale
power_of_ten_lem zero = refl
power_of_ten_lem (suc n) = ap (λ (k : ℕ). 10 * k) (power_of_ten_lem n)

scale_add : (m n : ℕ) → scale (m + n) ≡ scale m * scale n
unfolding scale
scale_add zero n = ap scale (zero_front n) ∙ one_front (scale n)
  where
    zero_front : (n : ℕ) → zero + n ≡ n
    zero_front n = omega arith

    one_front : (n : ℕ) → n ≡ 1 * n
    one_front n = omega arith
scale_add (suc m) n = ap scale (suc_front m n) ∙ grind (arith, scale_add m n)
  where
    suc_front : (m n : ℕ) → suc m + n ≡ suc (m + n)
    suc_front m n = omega arith

billion : scale 9 ≡ 1000000000
unfolding scale
billion = refl

-- The fraction at its place behind the seconds.
placed : (k v : ℕ) → k ≤ 9 → v * power_of_ten (9 - k) * scale k ≡ v * 1000000000
placed k v h =
    rw (power_of_ten_lem (9 - k))
      (grind (arith, sym (scale_add (9 - k) k) ∙ ap scale whole ∙ billion))
  where
    whole : 9 - k + k ≡ 9
    whole = omega (arith, h)

-- A fraction as the pattern has it: a point and up to nine digits, or nothing.
abbrev pub Fraction : Text → Text → Text → Type 0
Fraction ds u z = IsDigits ds × (length ds ≤ 9) × ((ds ≡ []) × (u ≡ z) ⊎ (u ≡ b'.' ∷ ds ++ z))

-- The nanoseconds of the digits `ds` behind the point.
abbrev pub IsPart : Text → ℕ → Type 0
IsPart ds part = part * scale (length ds) ≡ value ds * 1000000000

abbrev pub FractionRead : Text → Text → Type 0
FractionRead u z =
    (ds : Text) × (part : ℕ) × Fraction ds u z × IsPart ds part × (fraction_of u ≡ (part, z))

nothing-read : (u z : Text) → u ≡ z → fraction_of u ≡ (0, u) → FractionRead u z
unfolding value scale
nothing-read u z e h =
    ([], 0, (tt, omega arith, inl (refl, e)), omega arith, h ∙ ap (λ z. (0, z)) e)

point-read :
    (ds cs z : Text) (zone : Zone)
    → IsDigits ds
    → length ds ≤ 9
    → cs ≡ ds ++ z
    → take_zone z ≡ some zone
    → FractionRead (b'.' ∷ cs) z
point-read ds cs z zone d b e q = (
  ds,
  value ds * power_of_ten (9 - length ds),
  (d, b, inr (ap (λ z. b'.' ∷ z) e)),
  placed (length ds) (value ds) b,
  ap (λ (p : ℕ × ℕ × Text). (p.0 * power_of_ten (9 - p.1), p.2))
      (ap (digits_of 0 0) e ∙ digits-front ds z zone d q),
)

pub fraction-read :
    (u z : Text) (zone : Zone)
    → skip_fraction u ≡ some z
    → take_zone z ≡ some zone
    → FractionRead u z
unfolding skip_fraction
fraction-read [] z zone h q = nothing-read [] z (some-injective h) refl
fraction-read (c ∷ cs) z zone h q =
    if-known (c == b'.') _ _
      (λ e k.
        if-known ((skip_digits 9 cs).0 == 0) _ _ (λ _ r. absurd (none-some r))
          (λ _ r.
            let (ds, f, l, b, d) = skip_digits-Front 9 cs in
            subst (λ x. FractionRead (x ∷ cs) z) (sym ((==_iff c b'.').0 e))
              (point-read ds cs z zone d b (f ∙ ap (λ z. ds ++ z) (some-injective r)) q))
          k)
      (λ e k. nothing-read (c ∷ cs) z (some-injective k) (rw e refl)) h

pub zone_start :
    (z : Text) (zone : Zone)
    → take_zone z ≡ some zone
    → (c : ℕ) × (cs : Text) × (z ≡ c ∷ cs) × (is_digit c ≡ false)
unfolding take_zone
zone_start [] zone h = absurd (none-some h)
zone_start (c ∷ cs) zone h = (c, cs, refl, zone_first c cs zone h)
