-- ===== src/Base/Each.antt =====
-- All entries of a list, and all pairs of them.
use mathlib.Core.List.{List, [], ◌∷◌, ◌++◌}

module _ {ℓ κ} {A : Type ℓ} where
  abbrev pub Each : (A → Type κ) → List A → Type κ
  Each P [] = Unit {κ}
  Each P (x ∷ xs) = P x × Each P xs

  -- Each pair of an entry and a later one.
  abbrev pub Apart : (A → A → Type κ) → List A → Type κ
  Apart R [] = Unit {κ}
  Apart R (x ∷ xs) = Each (R x) xs × Apart R xs

  pub Each-map : (P Q : A → Type κ) (xs : List A) → ((x : A) → P x → Q x) → Each P xs → Each Q xs
  Each-map P Q [] f h = tt
  Each-map P Q (x ∷ xs) f (p, h) = (f x p, Each-map P Q xs f h)

  pub Each-append : (P : A → Type κ) (xs ys : List A) → Each P xs → Each P ys → Each P (xs ++ ys)
  Each-append P [] ys h k = k
  Each-append P (x ∷ xs) ys (p, h) k = (p, Each-append P xs ys h k)

  pub Apart-append :
      (R : A → A → Type κ) (xs : List A) (y : A)
      → Apart R xs
      → Each (λ x. R x y) xs
      → Apart R (xs ++ y ∷ [])
  Apart-append R [] y h k = (tt, tt)
  Apart-append R (x ∷ xs) y (r, h) (q, k) =
      (Each-append (R x) xs (y ∷ []) r (q, tt), Apart-append R xs y h k)
