-- ===== src/Intake/Hex.antt =====
-- Hexadecimal text, as intake/signature.ts compares it: two lower-case digits for each byte.
use whats_app_mcp_server.Base.{
  ℕ, ◌+◌, ◌-◌, ◌*◌, ◌/◌, ◌%◌, ◌<◌, ◌≡◌, refl, true, List, [], ◌∷◌, ltb, if◌then◌else◌, length, all,
  Text, arith, ap,
}
use whats_app_mcp_server.Domain.Patterns.{is_hex}
use whats_app_mcp_server.Intake.Signature.{nibble, from_hex}

abbrev pub hexit : ℕ → ℕ
hexit n = if ltb n 10 then 48 + n else 87 + n

unfoldable pub to_hex : List ℕ → Text
to_hex [] = []
to_hex (b ∷ bs) = hexit (b / 16) ∷ hexit (b % 16) ∷ to_hex bs

abbrev pub IsBytes : List ℕ → Type 0
IsBytes [] = Unit {0}
IsBytes (b ∷ bs) = (b < 256) × IsBytes bs

hexit-nibble : (c : ℕ) → is_hex c ≡ true → (hexit (nibble c) ≡ c) × (nibble c < 16)
hexit-nibble c h = ground arith

nibble-hexit : (n : ℕ) → n < 16 → (nibble (hexit n) ≡ n) × (is_hex (hexit n) ≡ true)
nibble-hexit n h = ground arith

pub to_hex-from_hex :
    (s : Text) (k : ℕ) → all is_hex s ≡ true → length s ≡ 2 * k → to_hex (from_hex s) ≡ s
unfolding to_hex from_hex
to_hex-from_hex [] k h l = refl
to_hex-from_hex (a ∷ []) k h l = absurd (omega arith)
to_hex-from_hex (a ∷ b ∷ cs) k h l =
    let ha : is_hex a ≡ true = ground arith in
    let hb : is_hex b ≡ true = ground arith in
    let rest : all is_hex cs ≡ true = ground arith in
    ground (
      arith,
      hexit-nibble a ha,
      hexit-nibble b hb,
      to_hex-from_hex cs (k - 1) rest (omega arith),
      split (nibble a) (nibble b) ((hexit-nibble b hb).1),
    )
  where
    split : (x y : ℕ) → y < 16 → ((16 * x + y) / 16 ≡ x) × ((16 * x + y) % 16 ≡ y)
    split x y h = omega arith

pub from_hex-to_hex :
    (bs : List ℕ)
    → IsBytes bs
    → (from_hex (to_hex bs) ≡ bs)
      × (all is_hex (to_hex bs) ≡ true)
      × (length (to_hex bs) ≡ 2 * length bs)
unfolding to_hex from_hex
from_hex-to_hex [] h = (refl, refl, omega arith)
from_hex-to_hex (b ∷ bs) h =
    let (inverse, hex, size) = from_hex-to_hex bs h.1 in
    let (n, x) = nibble-hexit (b / 16) (omega arith) in
    let (m, y) = nibble-hexit (b % 16) (omega arith) in
    (
      rw (n, m, inverse) (ap (λ (c : ℕ). c ∷ bs) (omega arith)),
      ground (arith, x, y, hex),
      omega (arith, size),
    )
