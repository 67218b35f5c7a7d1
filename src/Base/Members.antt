-- ===== src/Base/Members.antt =====
-- Entries of lists, and what all entries of a map have.
use mathlib.Core.Path.{◌≡◌, refl, sym, subst}
use mathlib.Core.Logic.{◌⊎◌, inl, inr}
use mathlib.Core.Bool.{Bool, true, false}
use mathlib.Core.Option.{some}
use mathlib.Core.List.{List, [], ◌∷◌}
use native.Mathlib.Omega.{arith}
use whats_app_mcp_server.Base.Tests.{if◌then◌else◌}
use whats_app_mcp_server.Base.Texts.{Text, text_eq, text_eq_iff}
use whats_app_mcp_server.Base.Dicts.{Dict, lookup, insert, remove, values}
use whats_app_mcp_server.Base.Each.{Each, Each-map}

module _ {A : Type 0} where
  abbrev pub Has : A → List A → Type 0
  Has a [] = ⊥
  Has a (x ∷ xs) = (x ≡ a) ⊎ Has a xs

  pub Has-all : (xs : List A) → Each (λ x. Has x xs) xs
  Has-all [] = tt
  Has-all (x ∷ xs) =
      (inl refl, Each-map (λ y. Has y xs) (λ y. Has y (x ∷ xs)) xs (λ y h. inr h) (Has-all xs))

module _ {V : Type 0} (P : Text × V → Type 0) where
  Each-if :
      (c : Bool) (xs ys : Dict V)
      → Each P xs
      → Each P ys
      → Each P (if◌then◌else◌ {A = Dict V} c xs ys)
  Each-if true xs ys h k = h
  Each-if false xs ys h k = k

  at_key :
      (c : Bool) (j k : Text) (v w : V) (m : Dict V)
      → text_eq j k ≡ c
      → P (k, v)
      → P (j, w)
      → Each P m
      → Each P (insert k v m)
      → Each P (if◌then◌else◌ {A = Dict V} c ((j, v) ∷ m) ((j, w) ∷ insert k v m))
  at_key true j k v w m e p q h r = (subst (λ i. P (i, v)) (sym ((text_eq_iff j k).0 e)) p, h)
  at_key false j k v w m e p q h r = (q, r)

  pub Each-insert : (k : Text) (v : V) (m : Dict V) → P (k, v) → Each P m → Each P (insert k v m)
  unfolding insert
  Each-insert k v [] p h = (p, tt)
  Each-insert k v ((j, w) ∷ m) p (q, h) =
      at_key (text_eq j k) j k v w m refl p q h (Each-insert k v m p h)

  pub Each-remove : (k : Text) (m : Dict V) → Each P m → Each P (remove k m)
  unfolding remove
  Each-remove k [] h = tt
  Each-remove k ((j, w) ∷ m) (q, h) =
      Each-if (text_eq j k) (remove k m) ((j, w) ∷ remove k m) (Each-remove k m h)
        (q, Each-remove k m h)

  found :
      (c : Bool) (j k : Text) (v w : V) (m : Dict V)
      → text_eq j k ≡ c
      → P (j, w)
      → (lookup k m ≡ some v → P (k, v))
      → (if c then some w else lookup k m) ≡ some v
      → P (k, v)
  found true j k v w m e q r h =
      subst (λ z. P (k, z)) (ground (arith, h)) (subst (λ i. P (i, w)) ((text_eq_iff j k).0 e) q)
  found false j k v w m e q r h = r h

  pub Each-lookup : (k : Text) (v : V) (m : Dict V) → Each P m → lookup k m ≡ some v → P (k, v)
  unfolding lookup
  Each-lookup k v [] h e = absurd (ground (arith, e))
  Each-lookup k v ((j, w) ∷ m) (q, h) e =
      found (text_eq j k) j k v w m refl q (Each-lookup k v m h) e

-- The values of a map.
pub Each-values :
    {V : Type 0} (P : V → Type 0) (m : Dict V) → Each (λ (k, v). P v) m → Each P (values m)
unfolding values
Each-values P [] h = tt
Each-values P ((k, v) ∷ m) (p, h) = (p, Each-values P m h)
