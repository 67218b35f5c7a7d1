-- ===== src/Compaction/Headroom.antt =====
-- compaction/usage-policy.ts: what a decision guarantees of the context window.
use whats_app_mcp_server.Base.{
  ℕ, ◌+◌, ◌-◌, ◌*◌, ◌≤◌, ◌<◌, min, leb, ◌≡◌, ◌⊎◌, true, false, Option, none, some, arith, inl, inr,
  Option-cases,
}
use whats_app_mcp_server.Domain.Errors.{ok}
use whats_app_mcp_server.Domain.Patterns.{max_safe}
use whats_app_mcp_server.Compaction.Usage.{
  Config, UsagePolicy, create_usage_policy, UsageSnapshot, Budget, Figures, enough, compact, usable,
  dynamic, figures, decide,
}

-- A policy that was created: the reserve leaves room in the working window, and the headroom is a
-- part of it that is neither nothing nor all.
pub record IsSound (p : UsagePolicy) : Type 0 where
  pub window : (1024 ≤ p.safe_working_window) × (p.safe_working_window ≤ 10000000)
  pub headroom : (1 ≤ p.headroom_percent) × (p.headroom_percent ≤ 99)
  pub reserve : (3 ≤ p.reserve) × (p.reserve < p.safe_working_window)

pub create_usage_policy-IsSound :
    (c : Config) (p : UsagePolicy) → create_usage_policy c ≡ ok p → IsSound p
unfolding create_usage_policy
create_usage_policy-IsSound c p h = ground arith

-- The tokens that a prompt will have used, reserves included.
abbrev pub need : UsagePolicy → ℕ → ℕ → ℕ
need p tokens sum = tokens + (p.reserve + sum)

-- The test in hundredths, without the subtraction that stops at zero.
room :
    (w n h : ℕ)
    → ((leb ((w - n) * 100) (w * h) ≡ false) × (100 * n + w * h < 100 * w))
      ⊎ ((leb ((w - n) * 100) (w * h) ≡ true) × (100 * w ≤ 100 * n + w * h))
room w n h = ground arith

-- With a usable snapshot and sums in range the policy decides, and it finds enough exactly if the
-- prompt leaves more than the headroom of the effective window free, in hundredths of it.
pub decide_iff :
    (p : UsagePolicy) (u : Option UsageSnapshot) (b : Budget) (tokens window sum : ℕ)
    → usable u ≡ some (tokens, window)
    → dynamic b ≡ some sum
    → need p tokens sum ≤ max_safe
    → let effective = min window p.safe_working_window in
      let f = figures p tokens window (p.reserve + sum) in
      ((decide p u b ≡ ok (enough f))
        × (100 * need p tokens sum + effective * p.headroom_percent < 100 * effective))
      ⊎ ((decide p u b ≡ ok (compact f))
          × (100 * effective ≤ 100 * need p tokens sum + effective * p.headroom_percent))
unfolding decide
decide_iff p u b tokens window sum e d m =
    ground
      (arith, e, d, room (min window p.safe_working_window) (need p tokens sum) p.headroom_percent)

decide_enough :
    (p : UsagePolicy) (u : Option UsageSnapshot) (b : Budget) (f : Figures) (tokens window sum : ℕ)
    → usable u ≡ some (tokens, window)
    → dynamic b ≡ some sum
    → decide p u b ≡ ok (enough f)
    → (need p tokens sum ≤ max_safe) × (f ≡ figures p tokens window (p.reserve + sum))
unfolding decide
decide_enough p u b f tokens window sum e d h = ground (arith, e, d)

decide_unusable :
    (p : UsagePolicy) (u : Option UsageSnapshot) (b : Budget) (f : Figures)
    → (dynamic b ≡ none) ⊎ (usable u ≡ none)
    → decide p u b ≡ ok (enough f)
    → ⊥
unfolding decide
decide_unusable p u b f missing h = ground arith

-- Whenever a created policy finds enough, the session's usage is known, and the prompt with all
-- reserves fits both the model's window and the safe one, and leaves what the decision says.
pub enough_fits :
    (c : Config) (p : UsagePolicy) (u : Option UsageSnapshot) (b : Budget) (f : Figures)
    → create_usage_policy c ≡ ok p
    → decide p u b ≡ ok (enough f)
    → (tokens : ℕ) × (window : ℕ) × (sum : ℕ) × (usable u ≡ some (tokens, window))
      × (dynamic b ≡ some sum)
      × (need p tokens sum < window)
      × (need p tokens sum < p.safe_working_window)
      × (f.projected_tokens ≡ need p tokens sum)
      × (f.remaining_tokens + need p tokens sum ≡ f.effective_window)
enough_fits c p u b f made h = elim (Option-cases (dynamic b)) [
  | inl bad ↦ absurd (decide_unusable p u b f (inl bad) h)
  | inr (sum, d) ↦ elim (Option-cases (usable u)) [
    | inl bad ↦ absurd (decide_unusable p u b f (inr bad) h)
    | inr ((tokens, window), e) ↦
        let (safe, exact) = decide_enough p u b f tokens window sum e d h in
        let sound = create_usage_policy-IsSound c p made in
        let iff = decide_iff p u b tokens window sum e d safe in
        let fits : (need p tokens sum < window) × (need p tokens sum < p.safe_working_window) =
          grind (arith, iff, sound.headroom) in
        (
          tokens,
          window,
          sum,
          e,
          d,
          fits.0,
          fits.1,
          ground (arith, exact),
          ground (arith, exact, fits),
        )
  ]
]
