-- ===== src/Base/Texts.antt =====
-- Texts as lists of character codes, with the equality test of JavaScript's `===` and Lua's `==`.
use Prim.Native.Nat.{ℕ}
use Prim.Native.Char.{code}
use Prim.Native.String.{String}
use mathlib.Core.Path.{◌≡◌, refl}
use mathlib.Core.Logic.{◌↔◌}
use mathlib.Core.Bool.{Bool, true, false, ◌&&◌}
use mathlib.Core.Option.{Option, none, some}
use mathlib.Core.List.{List, [], ◌∷◌}
use native.Mathlib.Omega.{arith}
use whats_app_mcp_server.Base.Tests.{◌==◌}

abbrev pub Text : Type 0
Text = List ℕ

-- The codes of a literal.
abbrev pub text : String → Text
text String.[] = []
text (String.◌∷◌ c s) = code c ∷ text s

unfoldable pub text_eq : Text → Text → Bool
text_eq [] [] = true
text_eq (x ∷ xs) (y ∷ ys) = x == y && text_eq xs ys
text_eq _ _ = false

pub text_eq_iff : (s t : Text) → (text_eq s t ≡ true) ↔ (s ≡ t)
unfolding text_eq
text_eq_iff [] [] = ground arith
text_eq_iff [] (y ∷ ys) = ground arith
text_eq_iff (x ∷ xs) [] = ground arith
text_eq_iff (x ∷ xs) (y ∷ ys) = ground (arith, text_eq_iff xs ys)

pub text_eq_refl : (s : Text) → text_eq s s ≡ true
text_eq_refl s = (text_eq_iff s s).1 refl

-- A field that may be missing against a text: a missing one equals none.
abbrev pub holds : Option Text → Text → Bool
holds none t = false
holds (some s) t = text_eq s t

pub holds_iff : (o : Option Text) (t : Text) → (holds o t ≡ true) ↔ (o ≡ some t)
holds_iff none t = ground arith
holds_iff (some s) t = ground (arith, text_eq_iff s t)
