-- ===== src/Intake/Calendar.antt =====
-- intake/payload.ts: `validTimestamp` against the calendar.
use whats_app_mcp_server.Base.{
  ℕ, zero, suc, ◌+◌, ◌*◌, ◌/◌, ◌%◌, ◌≤◌, ◌<◌, ◌≡◌, ◌≢◌, ◌↔◌, ◌⊎◌, refl, Bool, true, false, ◌&&◌,
  some, List, [], ◌∷◌, ◌++◌, ◌==◌, if◌then◌else◌, length, all, Text, arith,
}
use whats_app_mcp_server.Domain.Patterns.{is_digit}
use whats_app_mcp_server.Intake.Timestamp.{
  Stamp, Zone, utc, offset, take_digits, take_char, skip_digits, skip_fraction, take_zone, scan,
  is_leap, days_of, in_range, valid_timestamp,
}

-- Two and four decimal digits in front of a text.
unfoldable pub put2 : ℕ → Text → Text
put2 n rest = (48 + n / 10) ∷ (48 + n % 10) ∷ rest

unfoldable pub put4 : ℕ → Text → Text
put4 n rest = (48 + n / 1000) ∷ (48 + n / 100 % 10) ∷ (48 + n / 10 % 10) ∷ (48 + n % 10) ∷ rest

unfoldable pub put_zone : Zone → Text
unfolding put2
put_zone utc = b'Z' ∷ []
put_zone (offset minus h m) = (if minus then b'-' else b'+') ∷ put2 h (b':' ∷ put2 m [])

-- The fraction: its digits behind a dot, or nothing.
abbrev pub put_fraction : List ℕ → Text → Text
put_fraction [] rest = rest
put_fraction (d ∷ ds) rest = b'.' ∷ (d ∷ ds) ++ rest

unfoldable pub write : Stamp → List ℕ → Text
write s fraction = put4 s.year (
    b'-'
    ∷ put2 s.month (
        b'-'
        ∷ put2 s.day (
            b'T'
            ∷ put2 s.hour (
                b':'
                ∷ put2 s.minute (b':' ∷ put2 s.second (put_fraction fraction (put_zone s.zone)))))))

take_digits-put2 : (n : ℕ) (rest : Text) → n < 100 → take_digits 2 0 (put2 n rest) ≡ some (n, rest)
unfolding take_digits put2
take_digits-put2 n rest h = ground arith

take_digits-put4 :
    (n : ℕ) (rest : Text) → n < 10000 → take_digits 4 0 (put4 n rest) ≡ some (n, rest)
unfolding take_digits put4
take_digits-put4 n rest h = ground arith

take_char-cons : (c : ℕ) (rest : Text) → take_char c (c ∷ rest) ≡ some rest
unfolding take_char
take_char-cons c rest = ground arith

skip_digits-append :
    (n : ℕ) (ds : List ℕ) (c : ℕ) (cs : Text)
    → all is_digit ds ≡ true
    → length ds ≤ n
    → is_digit c ≡ false
    → skip_digits n (ds ++ c ∷ cs) ≡ (length ds, c ∷ cs)
unfolding skip_digits
skip_digits-append zero [] c cs h l e = refl
skip_digits-append (suc n) [] c cs h l e = ground arith
skip_digits-append zero (d ∷ ds) c cs h l e = absurd (omega arith)
skip_digits-append (suc n) (d ∷ ds) c cs h l e = ground (arith, skip_digits-append n ds c cs)

skip_fraction-put :
    (ds : List ℕ) (c : ℕ) (cs : Text)
    → all is_digit ds ≡ true
    → length ds ≤ 9
    → is_digit c ≡ false
    → c ≢ b'.'
    → skip_fraction (put_fraction ds (c ∷ cs)) ≡ some (c ∷ cs)
unfolding skip_fraction
skip_fraction-put [] c cs h l e n = ground arith
skip_fraction-put (d ∷ ds) c cs h l e n = ground (arith, skip_digits-append 9 (d ∷ ds) c cs)

-- The numbers of a zone have two digits.
abbrev pub HasWidth : Zone → Type 0
HasWidth utc = Unit {0}
HasWidth (offset minus h m) = (h < 100) × (m < 100)

zone-put :
    (ds : List ℕ) (z : Zone)
    → HasWidth z
    → all is_digit ds ≡ true
    → length ds ≤ 9
    → (skip_fraction (put_fraction ds (put_zone z)) ≡ some (put_zone z))
      × (take_zone (put_zone z) ≡ some z)
unfolding put_zone take_zone
zone-put ds utc w h l = (skip_fraction-put ds b'Z' [] h l refl (omega arith), ground arith)
zone-put ds (offset true hour minute) w h l = (
  skip_fraction-put ds b'-' _ h l refl (omega arith),
  ground (
    arith,
    take_digits-put2 hour (b':' ∷ put2 minute []),
    take_digits-put2 minute [],
    take_char-cons b':' (put2 minute []),
  ),
)
zone-put ds (offset false hour minute) w h l = (
  skip_fraction-put ds b'+' _ h l refl (omega arith),
  ground (
    arith,
    take_digits-put2 hour (b':' ∷ put2 minute []),
    take_digits-put2 minute [],
    take_char-cons b':' (put2 minute []),
  ),
)

-- The fields fit their digits.
pub record Fits (s : Stamp) (fraction : List ℕ) : Type 0 where
  pub year : s.year < 10000
  pub month : s.month < 100
  pub day : s.day < 100
  pub hour : s.hour < 100
  pub minute : s.minute < 100
  pub second : s.second < 100
  pub zone : HasWidth s.zone
  pub digits : all is_digit fraction ≡ true
  pub places : length fraction ≤ 9

scan-write : (s : Stamp) (fraction : List ℕ) → Fits s fraction → scan (write s fraction) ≡ some s
unfolding scan write
scan-write s fraction f =
    let (skipped, zoned) = zone-put fraction s.zone f.zone f.digits f.places in
    let r₁ = put_fraction fraction (put_zone s.zone) in
    let r₂ = b':' ∷ put2 s.second r₁ in
    let r₃ = b':' ∷ put2 s.minute r₂ in
    let r₄ = b'T' ∷ put2 s.hour r₃ in
    let r₅ = b'-' ∷ put2 s.day r₄ in
    let r₆ = b'-' ∷ put2 s.month r₅ in
    rw (take_digits-put4 s.year r₆ f.year) (
      rw (take_digits-put2 s.month r₅ f.month) (
        rw (take_digits-put2 s.day r₄ f.day) (
          rw (take_digits-put2 s.hour r₃ f.hour) (
            rw (take_digits-put2 s.minute r₂ f.minute)
              (rw (take_digits-put2 s.second r₁ f.second) (rw skipped (rw zoned)))))))

-- A year with a 29th of February.
abbrev pub IsLeap : ℕ → Type 0
IsLeap year = (year % 4 ≡ 0) × ((year % 100 ≢ 0) ⊎ (year % 400 ≡ 0))

-- The length of a month in a common year, by the known formula.
abbrev pub month_length : ℕ → ℕ
month_length m = 28 + (m + m / 8) % 2 + 2 % m + 2 * (1 / m)

abbrev pub IsZone : Zone → Type 0
IsZone utc = Unit {0}
IsZone (offset minus h m) = (h < 24) × (m < 60)

-- A moment of the calendar.
pub record IsMoment (s : Stamp) : Type 0 where
  pub year : 0 < s.year
  pub month : (1 ≤ s.month) × (s.month ≤ 12)
  pub day : 1 ≤ s.day
  pub in_month : (s.day ≤ month_length s.month) ⊎ ((s.month ≡ 2) × (s.day ≡ 29) × IsLeap s.year)
  pub clock : (s.hour < 24) × (s.minute < 60) × (s.second < 60)
  pub zone : IsZone s.zone

is_leap_iff : (year : ℕ) → (is_leap year ≡ true) ↔ IsLeap year
unfolding is_leap
is_leap_iff year = ground arith

days_of-month_length :
    (leap : Bool) (m : ℕ)
    → 1 ≤ m
    → m ≤ 12
    → days_of leap m ≡ month_length m + (if leap && m == 2 then 1 else 0)
unfolding days_of
days_of-month_length leap m h k = ground arith

in_range_sound : (s : Stamp) → in_range s ≡ true → IsMoment s
unfolding in_range
in_range_sound s h =
    ground (arith, is_leap_iff s.year, days_of-month_length (is_leap s.year) s.month)

in_range_complete : (s : Stamp) → IsMoment s → in_range s ≡ true
unfolding in_range
in_range_complete s m =
    ground (arith, is_leap_iff s.year, days_of-month_length (is_leap s.year) s.month)

-- A timestamp of the schema's form passes exactly if it is a moment of the calendar: a year from 1,
-- a day within its month, the leap day in leap years, a time of day and a zone in range; at any
-- fraction of up to nine digits.
pub valid_timestamp-write :
    (s : Stamp) (fraction : List ℕ)
    → Fits s fraction
    → (valid_timestamp (write s fraction) ≡ true) ↔ IsMoment s
unfolding valid_timestamp
valid_timestamp-write s fraction f =
    rw (scan-write s fraction f, valid_timestamp) (in_range_sound s, in_range_complete s)
