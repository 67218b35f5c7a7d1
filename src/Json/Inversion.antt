-- ===== src/Json/Inversion.antt =====
-- What a chain of steps that may throw tells when it has ended well.
use whats_app_mcp_server.Base.{
  ◌≡◌, refl, arith, Bool, true, false, Option, none, some, if◌then◌else◌, ◌&&◌, ◌⊎◌, inl, inr,
}
use whats_app_mcp_server.Json.{◌>>=◌, ◌>>◌, guard}

pub bind-some :
    {A B : Type 0} {b : B} (o : Option A) (f : A → Option B)
    → (o >>= f) ≡ some b
    → (a : A) × (o ≡ some a) × (f a ≡ some b)
bind-some none f h = ground arith
bind-some (some a) f h = (a, refl, h)

pub guard-some :
    {B : Type 0} {b : B} (c : Bool) (k : Option B)
    → (guard c >> k) ≡ some b
    → (c ≡ true) × (k ≡ some b)
guard-some true k h = (refl, h)
guard-some false k h = ground arith

pub if-cases :
    {A : Type 0} {a : A} (c : Bool) (x y : A)
    → (if c then x else y) ≡ a
    → ((c ≡ true) × (x ≡ a)) ⊎ ((c ≡ false) × (y ≡ a))
if-cases true x y h = inl (refl, h)
if-cases false x y h = inr (refl, h)

-- What follows from both branches.
pub if-then {ℓ} :
    {A : Type 0} {a : A} {P : Type ℓ} (c : Bool) (x y : A)
    → (x ≡ a → P)
    → (y ≡ a → P)
    → (if c then x else y) ≡ a
    → P
if-then true x y f g h = f h
if-then false x y f g h = g h

pub bind-then {ℓ} :
    {A B : Type 0} {b : B} {P : Type ℓ} (o : Option A) (f : A → Option B)
    → ((a : A) → o ≡ some a → f a ≡ some b → P)
    → (o >>= f) ≡ some b
    → P
bind-then none f k h = ground arith
bind-then (some a) f k h = k a refl h

pub some-injective : {A : Type 0} {a b : A} → some a ≡ some b → a ≡ b
some-injective h = ground (arith, h)

pub none-some : {A : Type 0} {a : A} → none ≡ some a → ⊥
none-some h = ground (arith, h)

pub if-some :
    {A : Type 0} {y : A} (c : Bool) (x : A)
    → (if c then some x else none) ≡ some y
    → (c ≡ true) × (x ≡ y)
if-some true x h = (refl, some-injective h)
if-some false x h = absurd (none-some h)

pub and-true : (a b : Bool) → (a && b) ≡ true → (a ≡ true) × (b ≡ true)
and-true a b h = ground (arith, h)

-- What follows from both branches, with the test that leads there.
pub if-known {ℓ} :
    {A : Type 0} {a : A} {P : Type ℓ} (c : Bool) (x y : A)
    → (c ≡ true → x ≡ a → P)
    → (c ≡ false → y ≡ a → P)
    → (if c then x else y) ≡ a
    → P
if-known true x y f g h = f refl h
if-known false x y f g h = g refl h
