-- ===== src/Json.antt =====
-- The JSON values that the controller reads: what `JSON.parse` answers, and how the code looks into
-- it (`typeof`, `Array.isArray`, `e['key']`).
pub mod Inversion
use whats_app_mcp_server.Base.{
  ℕ, Bool, true, false, Option, none, some, List, [], ◌∷◌, if◌then◌else◌, is_some, Text, text_eq,
}

-- A number of JavaScript: a whole number from 0, another finite one, or one that overflows.
pub data JsonNumber : Type 0 where
  whole : ℕ → JsonNumber
  fraction infinite : JsonNumber

mutual
  pub data Json : Type 0 where
    null : Json
    boolean : Bool → Json
    number : JsonNumber → Json
    string : Text → Json
    array : Items → Json
    object : Members → Json

  pub data Items : Type 0 where
    nil : Items
    cons : Json → Items → Items

  pub data Members : Type 0 where
    end : Members
    member : Text → Json → Members → Members

-- A function that may throw; the thrown error is the caller's.
infixl 5 ◌>>=◌ ◌>>◌
abbrev pub ◌>>=◌ {ℓ κ} : {A : Type ℓ} {B : Type κ} → Option A → (A → Option B) → Option B
none >>= f = none
some a >>= f = f a

abbrev pub ◌>>◌ {ℓ} : {B : Type ℓ} → Option (Unit {0}) → Option B → Option B
none >> k = none
some u >> k = k

-- `if (!b) throw`.
abbrev pub guard : Bool → Option (Unit {0})
guard true = some tt
guard false = none

-- `e[key]`; none is `undefined`.
unfoldable pub at : Text → Members → Option Json
at key end = none
at key (member k v ms) = if text_eq k key then some v else at key ms

-- An object that is no array and not null.
abbrev pub as_object : Option Json → Option Members
as_object (some (object ms)) = some ms
as_object _ = none

abbrev pub as_text : Option Json → Option Text
as_text (some (string t)) = some t
as_text _ = none

abbrev pub as_array : Option Json → Option Items
as_array (some (array xs)) = some xs
as_array _ = none

-- `typeof v === 'string'`.
abbrev pub is_text : Option Json → Bool
is_text v = is_some (as_text v)

abbrev pub is_boolean : Option Json → Bool
is_boolean (some (boolean b)) = true
is_boolean _ = false

abbrev pub is_number : Option Json → Bool
is_number (some (number n)) = true
is_number _ = false

abbrev pub is_finite : Option Json → Bool
is_finite (some (number infinite)) = false
is_finite (some (number n)) = true
is_finite _ = false

abbrev pub is_array : Option Json → Bool
is_array v = is_some (as_array v)

abbrev pub is_null : Option Json → Bool
is_null (some null) = true
is_null _ = false

-- `v && typeof v === 'object'`.
abbrev pub is_composite : Option Json → Bool
is_composite (some (array xs)) = true
is_composite (some (object ms)) = true
is_composite _ = false

unfoldable pub list_of : Items → List Json
list_of nil = []
list_of (cons x xs) = x ∷ list_of xs

unfoldable pub keys_of : Members → List Text
keys_of end = []
keys_of (member k v ms) = k ∷ keys_of ms
