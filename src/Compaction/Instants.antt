-- ===== src/Compaction/Instants.antt =====
-- compaction/orphan-recovery.ts: what `timestampNs` reads.
use whats_app_mcp_server.Base.{
  ℕ, zero, suc, ◌+◌, ◌-◌, ◌*◌, ◌≡◌, refl, sym, ap, subst, ◌∙◌, arith, false, ◌==◌, Option, none,
  some, [], ◌∷◌, ◌++◌, length, length-append, Text,
}
use whats_app_mcp_server.Json.Inversion.{none-some, some-injective, if-known}
use whats_app_mcp_server.Domain.Patterns.{is_digit}
use whats_app_mcp_server.Intake.Timestamp.{
  ◌>>=◌, take_digits, take_char, skip_fraction, Zone, take_zone, Stamp, scan,
}
use whats_app_mcp_server.Session.Log.{Language}
use whats_app_mcp_server.Session.Chunks.{append_assoc}
use whats_app_mcp_server.Compaction.Fractions.{Fraction, IsPart, fraction-read, zone_start}
use whats_app_mcp_server.Compaction.Generation.{split_at, fraction_of, timestamp_ns}

step-then {ℓ} :
    {A B : Type 0} {b : B} {P : Type ℓ} (o : Option A) (f : A → Option B)
    → (o >>= f) ≡ some b
    → ((a : A) → o ≡ some a → f a ≡ some b → P)
    → P
step-then none f h k = absurd (none-some h)
step-then (some a) f h k = k a refl h

-- The text is so many characters and a rest.
abbrev Front : ℕ → Text → Text → Type 0
Front n t r = (a : Text) × (length a ≡ n) × (t ≡ a ++ r)

Front-trans : (m n : ℕ) (t r q : Text) → Front m t r → Front n r q → Front (m + n) t q
Front-trans m n t r q (a, k, e) (b, l, f) = (
  a ++ b,
  omega (arith, length-append a b, k, l),
  e ∙ ap (λ z. a ++ z) f ∙ sym (append_assoc a b q),
)

take_digits-Front :
    (n acc : ℕ) (t : Text) (v : ℕ) (r : Text) → take_digits n acc t ≡ some (v, r) → Front n t r
unfolding take_digits
take_digits-Front zero acc t v r h = ([], refl, ap (λ z. z.1) (some-injective h))
take_digits-Front (suc n) acc [] v r h = absurd (none-some h)
take_digits-Front (suc n) acc (c ∷ cs) v r h =
    if-known (is_digit c) _ _
      (λ _ k.
        let (a, l, e) = take_digits-Front n (10 * acc + (c - 48)) cs v r k in
        (c ∷ a, ap suc l, ap (λ z. c ∷ z) e))
      (λ _ k. absurd (none-some k)) h

take_char-Front : (x : ℕ) (t r : Text) → take_char x t ≡ some r → Front 1 t r
unfolding take_char
take_char-Front x [] r h = absurd (none-some h)
take_char-Front x (c ∷ cs) r h =
    if-known (c == x) _ _ (λ _ k. (c ∷ [], refl, ap (λ z. c ∷ z) (some-injective k)))
      (λ _ k. absurd (none-some k)) h

digits-then {ℓ} :
    {B : Type 0} {b : B} {P : Type ℓ} (m n : ℕ) (t₀ t : Text) (f : ℕ × Text → Option B)
    → Front m t₀ t
    → (take_digits n 0 t >>= f) ≡ some b
    → ((v : ℕ) (r : Text) → Front (m + n) t₀ r → f (v, r) ≡ some b → P)
    → P
digits-then m n t₀ t f g h k =
    step-then (take_digits n 0 t) f h
      (λ a e q. k a.0 a.1 (Front-trans m n t₀ t a.1 g (take_digits-Front n 0 t a.0 a.1 e)) q)

char-then {ℓ} :
    {B : Type 0} {b : B} {P : Type ℓ} (m x : ℕ) (t₀ t : Text) (f : Text → Option B)
    → Front m t₀ t
    → (take_char x t >>= f) ≡ some b
    → ((r : Text) → Front (m + 1) t₀ r → f r ≡ some b → P)
    → P
char-then m x t₀ t f g h k =
    step-then (take_char x t) f h
      (λ r e q. k r (Front-trans m 1 t₀ t r g (take_char-Front x t r e)) q)

-- What the pattern reads: nineteen characters, a fraction and a zone.
abbrev Scanned : Text → Type 0
Scanned t =
    (u : Text) × (z : Text) × (zone : Zone) × Front 19 t u
    × (skip_fraction u ≡ some z)
    × (take_zone z ≡ some zone)

scan-Scanned : (t : Text) (s : Stamp) → scan t ≡ some s → Scanned t
unfolding scan
scan-Scanned t s h =
    digits-then 0 4 t t _ ([], refl, refl) h
      (λ _ t1 g1 h1. char-then 4 b'-' t t1 _ g1 h1 (λ t2 g2 h2.
        digits-then 5 2 t t2 _ g2 h2 (λ _ t3 g3 h3. char-then 7 b'-' t t3 _ g3 h3 (λ t4 g4 h4.
          digits-then 8 2 t t4 _ g4 h4 (λ _ t5 g5 h5. char-then 10 b'T' t t5 _ g5 h5 (λ t6 g6 h6.
            digits-then 11 2 t t6 _ g6 h6 (λ _ t7 g7 h7. char-then 13 b':' t t7 _ g7 h7 (λ t8 g8 h8.
              digits-then 14 2 t t8 _ g8 h8 (λ _ t9 g9 h9.
                char-then 16 b':' t t9 _ g9 h9 (λ ta ga ha.
                  digits-then 17 2 t ta _ ga ha (λ _ u g q.
                    step-then (skip_fraction u) _ q (λ z e r.
                      step-then (take_zone z) _ r (λ zone d _. (u, z, zone, g, e, d))))))))))))))

-- A time of the form that the schema takes, and its nanoseconds: the milliseconds that JavaScript
-- gives for the text without the fraction, and the fraction exactly.
pub record Instant (l : Language) (t : Text) (ns : ℕ) : Type 0 where
  pub date : Text
  pub digits : Text
  pub zone : Text
  pub fraction : Text
  pub ms : ℕ
  pub part : ℕ
  pub form : (length date ≡ 19) × (t ≡ date ++ fraction) × Fraction digits fraction zone
  pub undivided : (c : ℕ) × (cs : Text) × (zone ≡ c ∷ cs) × (is_digit c ≡ false)
  pub parsed : l.parse_date (date ++ zone) ≡ some ms
  pub exact : IsPart digits part
  pub total : ns ≡ ms * 1000000 + part

split_at-length : (a r : Text) → split_at (length a) (a ++ r) ≡ (a, r)
unfolding split_at
split_at-length [] r = refl
split_at-length (c ∷ a) r = ap (λ (p : Text × Text). (c ∷ p.0, p.1)) (split_at-length a r)

split-front : (a r t : Text) → length a ≡ 19 → t ≡ a ++ r → split_at 19 t ≡ (a, r)
split-front a r t l e =
    ap (split_at 19) e ∙ ap (λ n. split_at n (a ++ r)) (sym l) ∙ split_at-length a r

-- `createdNs` is the instant that the text tells.
pub timestamp_ns-Instant :
    (l : Language) (t : Text) (ns : ℕ) → timestamp_ns l t ≡ some ns → Instant l t ns
unfolding timestamp_ns
timestamp_ns-Instant l t ns h = step-then (scan t) _ h (λ s e q.
    let (u, z, zone, (a, k, f), g, d) = scan-Scanned t s e in
    let (ds, part, form, exact, read) = fraction-read u z zone g d in
    let cut = split-front a u t k f in
    let whole =
      subst
        (λ (c : Text × Text).
          (l.parse_date (c.0 ++ (fraction_of c.1).1) >>= λ ms.
          some (ms * 1000000 + (fraction_of c.1).0))
          ≡ some ns)
        cut q in
    let split =
      subst
        (λ (c : ℕ × Text). (l.parse_date (a ++ c.1) >>= λ ms. some (ms * 1000000 + c.0)) ≡ some ns)
        read whole in
    step-then (l.parse_date (a ++ z)) _ split (λ ms w r. record {
      date = a;
      digits = ds;
      zone = z;
      fraction = u;
      ms = ms;
      part = part;
      form = (k, f, form);
      undivided = zone_start z zone d;
      parsed = w;
      exact = exact;
      total = sym (some-injective r);
    }))
