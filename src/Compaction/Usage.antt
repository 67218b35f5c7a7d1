-- ===== src/Compaction/Usage.antt =====
-- compaction/usage-policy.ts. A JavaScript number is read as far as the code tests it.
use whats_app_mcp_server.Base.{
  ℕ, ◌+◌, ◌-◌, ◌*◌, min, Bool, false, not, ◌&&◌, Option, none, some, leb, ltb, if◌then◌else◌,
}
use whats_app_mcp_server.Domain.Errors.{
  Result, ok, err, ◌>>=◌, ◌>>◌, require, config_invalid, usage_unknown,
}
use whats_app_mcp_server.Domain.Patterns.{max_safe}

-- A natural number, one below zero, one strictly between `n` and `n + 1`, or none.
pub data Number : Type 0 where
  natural : ℕ → Number
  negative : Number
  between : ℕ → Number
  not_finite : Number

-- `integer(value, minimum)`, with the value.
abbrev pub integer : Number → ℕ → Option ℕ
integer (natural n) minimum = if leb n max_safe && leb minimum n then some n else none
integer _ minimum = none

abbrev or_throw {ℓ} : {A : Type ℓ} → Option A → Result A
or_throw none = err config_invalid
or_throw (some a) = ok a

pub record Config : Type 0 where
  pub safe_working_window_tokens : Number
  pub default_context_window_tokens : Number
  pub headroom_percent : Number
  pub response_reserve_tokens : Number
  pub preparation_reserve_tokens : Number
  pub summary_reserve_tokens : Number
  pub checkpoint_max_bytes : Number

-- The frozen configuration and the fixed reserve.
pub record UsagePolicy : Type 0 where
  pub safe_working_window : ℕ
  pub headroom_percent : ℕ
  pub reserve : ℕ

-- The sums of safe integers that the code tests by `isSafeInteger` are at most four, and above
-- 2^53 no rounding brings them below it: the test reads the exact sum.
unfoldable pub create_usage_policy : Config → Result UsagePolicy
create_usage_policy c = do
  safe ← or_throw (integer c.safe_working_window_tokens 1)
  window ← or_throw (integer c.default_context_window_tokens 1)
  headroom ← or_throw (integer c.headroom_percent 1)
  response ← or_throw (integer c.response_reserve_tokens 1)
  preparation ← or_throw (integer c.preparation_reserve_tokens 1)
  summary ← or_throw (integer c.summary_reserve_tokens 1)
  bytes ← or_throw (integer c.checkpoint_max_bytes 1)
  require
      (leb 1024 safe
        && leb safe 10000000
        && leb 1024 window
        && leb window 10000000
        && leb headroom 99
        && leb response 1000000
        && leb preparation 1000000
        && leb summary 1000000
        && leb 1024 bytes
        && leb bytes 262144)
      config_invalid
  let reserve = response + preparation + summary
  require (leb reserve max_safe && ltb reserve (min safe window)) config_invalid
  ok (record { safe_working_window = safe; headroom_percent = headroom; reserve = reserve })

pub record UsageSnapshot : Type 0 where
  pub tokens : Option Number
  pub context_window : Number
  pub percent : Option Number

pub record Budget : Type 0 where
  pub event : Number
  pub tools : Number
  pub prompt : Number

-- `remainingPercent` is the quotient of `remaining * 100` by the window, kept as its two parts.
pub record Figures : Type 0 where
  pub effective_window : ℕ
  pub projected_tokens : ℕ
  pub remaining_tokens : ℕ
  pub percent_over : ℕ

pub data UsageDecision : Type 0 where
  enough : Figures → UsageDecision
  compact : Figures → UsageDecision
  unknown : UsageDecision

-- A percentage that is there and within range.
abbrev pub valid_percent : Option Number → Bool
valid_percent (some (natural n)) = leb n 100
valid_percent (some (between n)) = ltb n 100
valid_percent _ = false

-- The tokens and the window of a usable snapshot.
abbrev pub usable : Option UsageSnapshot → Option (ℕ × ℕ)
usable none = none
usable (some u) = elim u.tokens [
  | none ↦ none
  | some t ↦ elim (integer t 0) [
    | none ↦ none
    | some tokens ↦ elim (integer u.context_window 1) [
      | none ↦ none
      | some window ↦ if valid_percent u.percent then some (tokens, window) else none
    ]
  ]
]

abbrev pub dynamic : Budget → Option ℕ
dynamic b = elim (integer b.event 0) [
  | none ↦ none
  | some e ↦ elim (integer b.tools 0) [
    | none ↦ none
    | some t ↦ elim (integer b.prompt 0) [ none ↦ none | some p ↦ some (e + t + p) ]
  ]
]

abbrev pub figures : UsagePolicy → ℕ → ℕ → ℕ → Figures
figures p tokens window extra =
    let effective = min window p.safe_working_window in
    let remaining = effective - (tokens + extra) in
    record {
      effective_window = effective;
      projected_tokens = tokens + extra;
      remaining_tokens = remaining;
      percent_over = remaining * 100;
    }

unfoldable pub decide : UsagePolicy → Option UsageSnapshot → Budget → Result UsageDecision
decide p usage incoming = elim (dynamic incoming) [
  | none ↦ err usage_unknown
  | some sum ↦ elim (usable usage) [
    | none ↦ ok unknown
    | some (tokens, window) ↦
        let extra = p.reserve + sum in
        if not (leb extra max_safe && leb (tokens + extra) max_safe)
        then err usage_unknown
        else let f = figures p tokens window extra in
          ok (
            if leb (f.remaining_tokens * 100) (f.effective_window * p.headroom_percent)
            then compact f
            else enough f)
  ]
]
