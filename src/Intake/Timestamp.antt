-- ===== src/Intake/Timestamp.antt =====
-- `validTimestamp` of intake/payload.ts.
use whats_app_mcp_server.Base.{
  ℕ, zero, suc, ◌+◌, ◌-◌, ◌*◌, ◌%◌, Bool, true, false, not, ◌&&◌, ◌||◌, Option, none, some, [], ◌∷◌,
  leb, ltb, ◌==◌, if◌then◌else◌, length, is_empty, Text,
}
use whats_app_mcp_server.Domain.Patterns.{is_digit}

infixl 5 ◌>>=◌
abbrev pub ◌>>=◌ {ℓ κ} : {A : Type ℓ} {B : Type κ} → Option A → (A → Option B) → Option B
none >>= f = none
some a >>= f = f a

-- `\d{n}`: the number that the digits stand for, and what follows.
unfoldable pub take_digits : ℕ → ℕ → Text → Option (ℕ × Text)
take_digits zero acc t = some (acc, t)
take_digits (suc n) acc [] = none
take_digits (suc n) acc (c ∷ cs) =
    let rest = take_digits n (10 * acc + (c - 48)) cs in if is_digit c then rest else none

-- A literal character.
unfoldable pub take_char : ℕ → Text → Option Text
take_char x [] = none
take_char x (c ∷ cs) = if c == x then some cs else none

-- `\d*`, at most `n` of them: how many, and what follows.
unfoldable pub skip_digits : ℕ → Text → ℕ × Text
skip_digits zero t = (0, t)
skip_digits (suc n) [] = (0, [])
skip_digits (suc n) (c ∷ cs) =
    let (k, rest) = skip_digits n cs in if is_digit c then (k + 1, rest) else (0, c ∷ cs)

-- `(?:\.\d{1,9})?`. What may follow is no digit, so there is nothing to take back.
unfoldable pub skip_fraction : Text → Option Text
skip_fraction [] = some []
skip_fraction (c ∷ cs) =
    if c == b'.'
    then (let (k, rest) = skip_digits 9 cs in if k == 0 then none else some rest)
    else some (c ∷ cs)

-- The zone: `Z`, or a sign with hours and minutes.
pub data Zone : Type 0 where
  utc : Zone
  offset : Bool → ℕ → ℕ → Zone

unfoldable pub take_zone : Text → Option Zone
take_zone [] = none
take_zone (c ∷ cs) =
    if c == b'Z'
    then (if is_empty cs then some utc else none)
    else if c == b'+' || c == b'-'
    then (do
      (h, r) ← take_digits 2 0 cs
      r' ← take_char b':' r
      (m, rest) ← take_digits 2 0 r'
      if is_empty rest then some (offset (c == b'-') h m) else none)
    else none

pub record Stamp : Type 0 where
  pub year : ℕ
  pub month : ℕ
  pub day : ℕ
  pub hour : ℕ
  pub minute : ℕ
  pub second : ℕ
  pub zone : Zone

-- The groups of the pattern, in their order.
unfoldable pub scan : Text → Option Stamp
unfolding take_digits take_char skip_fraction skip_digits take_zone
scan t = do
  (year, t₁) ← take_digits 4 0 t
  t₂ ← take_char b'-' t₁
  (month, t₃) ← take_digits 2 0 t₂
  t₄ ← take_char b'-' t₃
  (day, t₅) ← take_digits 2 0 t₄
  t₆ ← take_char b'T' t₅
  (hour, t₇) ← take_digits 2 0 t₆
  t₈ ← take_char b':' t₇
  (minute, t₉) ← take_digits 2 0 t₈
  u ← take_char b':' t₉
  (second, u₁) ← take_digits 2 0 u
  u₂ ← skip_fraction u₁
  zone ← take_zone u₂
  some (record {
    year = year;
    month = month;
    day = day;
    hour = hour;
    minute = minute;
    second = second;
    zone = zone;
  })

unfoldable pub is_leap : ℕ → Bool
is_leap year = year % 4 == 0 && (not (year % 100 == 0) || year % 400 == 0)

-- `days[month - 1] ?? 0`.
unfoldable pub days_of : Bool → ℕ → ℕ
days_of leap month =
    if month == 1
    then 31
    else if month == 2
    then (if leap then 29 else 28)
    else if month == 3
    then 31
    else if month == 4
    then 30
    else if month == 5
    then 31
    else if month == 6
    then 30
    else if month == 7
    then 31
    else if month == 8
    then 31
    else if month == 9
    then 30
    else if month == 10
    then 31
    else if month == 11
    then 30
    else if month == 12
    then 31
    else 0

abbrev zone_in_range : Zone → Bool
zone_in_range utc = true
zone_in_range (offset minus h m) = ltb h 24 && ltb m 60

unfoldable pub in_range : Stamp → Bool
in_range s =
    ltb 0 s.year
    && leb 1 s.month
    && leb s.month 12
    && leb 1 s.day
    && leb s.day (days_of (is_leap s.year) s.month)
    && ltb s.hour 24
    && ltb s.minute 60
    && ltb s.second 60
    && zone_in_range s.zone

unfoldable pub valid_timestamp : Text → Bool
unfolding scan in_range is_leap days_of
valid_timestamp t = elim (scan t) [ none ↦ false | some s ↦ in_range s ]

-- `TimestampSchema`: the same pattern, and at most 40 characters.
unfoldable pub is_timestamp : Text → Bool
unfolding scan
is_timestamp t = elim (scan t) [ none ↦ false | some s ↦ leb (length t) 40 ]
