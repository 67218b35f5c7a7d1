-- ===== src/Session/Stillness.antt =====
-- pi/completion-index.ts: when the reader of a session file returns proofs.
use whats_app_mcp_server.Base.{
  ℕ, zero, suc, ◌<◌, ◌≡◌, refl, ◌⊎◌, inl, inr, arith, Bool, true, false, not, ◌||◌, Option, none,
  some, List, if◌then◌else◌, ◌==◌,
}
use whats_app_mcp_server.Scheduler.Work.{SessionBinding, CompletionProof}
use whats_app_mcp_server.Session.Log.{Language}
use whats_app_mcp_server.Session.Evidence.{
  Attempt, scanned, settle_read, judge_attempt, unchanged, same_file, Verdict, again, refused,
  unsynced, proved, verdict_in, Findings, failure, not_durable, evidence, read_attempts,
}

-- The samples around the read and around the sync agree, and the file was made durable.
pub record Still (a : Attempt) : Type 0 where
  pub unmoved : unchanged a.before a.after ≡ true
  pub named : same_file a.after a.named ≡ true
  pub synced : a.synced ≡ true
  pub kept : unchanged a.after a.durable ≡ true
  pub durable : same_file a.durable a.durable_name ≡ true
  pub no_link : a.durable_name.is_link ≡ false

-- The tests that the two samples of one file make.
tests_settled :
    (synced kept durable link : Bool) (o : Option (List CompletionProof))
    (ps : List CompletionProof)
    → elim o as (λ _. Verdict) [
      | none ↦ refused
      | some qs ↦
          if not synced
          then unsynced
          else if not kept || not durable || link
          then again
          else proved qs
    ]
      ≡ proved ps
    → (o ≡ some ps) × (synced ≡ true) × (kept ≡ true) × (durable ≡ true) × (link ≡ false)
tests_settled synced kept durable link o ps h = ground arith

settle_read-proved :
    (a : Attempt) (o : Option (List CompletionProof)) (ps : List CompletionProof)
    → settle_read a o ≡ proved ps
    → (o ≡ some ps)
      × (a.synced ≡ true)
      × (unchanged a.after a.durable ≡ true)
      × (same_file a.durable a.durable_name ≡ true)
      × (a.durable_name.is_link ≡ false)
settle_read-proved a none ps h = ground arith
settle_read-proved a (some qs) ps h =
    tests_settled a.synced (unchanged a.after a.durable) (same_file a.durable a.durable_name)
      a.durable_name.is_link (some qs) ps h

tests_judged :
    (bad read named : Bool) (v : Verdict) (ps : List CompletionProof)
    → (if bad then refused else if not read || not named then again else v) ≡ proved ps
    → (v ≡ proved ps) × (read ≡ true) × (named ≡ true)
tests_judged bad read named v ps h = ground arith

module _ (l : Language) (b : SessionBinding) where
  judge_attempt-Still :
      (a : Attempt) (ps : List CompletionProof)
      → judge_attempt l b a ≡ proved ps
      → Still a × (scanned l b a ≡ some ps)
  unfolding judge_attempt
  judge_attempt-Still a ps h =
      let (v, read, named) =
        tests_judged (not a.before.is_file || a.before.bytes == 0) (unchanged a.before a.after)
          (same_file a.after a.named) (settle_read a (scanned l b a)) ps h in
      let (o, synced, kept, durable, link) = settle_read-proved a (scanned l b a) ps v in
      (
        record {
          unmoved = read;
          named = named;
          synced = synced;
          kept = kept;
          durable = durable;
          no_link = link;
        },
        o,
      )

  -- One of the attempts from `n` down saw the file stand still, and read these proofs.
  abbrev pub ReadIn : (ℕ → Option Attempt) → ℕ → List CompletionProof → Type 0
  ReadIn scan n ps =
      (k : ℕ) × (a : Attempt) × (k < n) × (scan k ≡ some a) × Still a × (scanned l b a ≡ some ps)

  later_attempt :
      (scan : ℕ → Option Attempt) (n : ℕ) (ps : List CompletionProof)
      → ReadIn scan n ps
      → ReadIn scan (suc n) ps
  later_attempt scan n ps (k, a, lt, e, st, r) = (k, a, omega (arith, lt), e, st, r)

  by_verdict :
      (v : Verdict) (r : Findings) (ps : List CompletionProof)
      → elim v as (λ _. Findings) [
        | again ↦ r
        | refused ↦ failure
        | unsynced ↦ not_durable
        | proved qs ↦ evidence qs
      ]
        ≡ evidence ps
      → (v ≡ proved ps) ⊎ (r ≡ evidence ps)
  by_verdict v r ps h = ground arith

  proved_in :
      (o : Option Attempt) (ps : List CompletionProof)
      → verdict_in l b o ≡ proved ps
      → (a : Attempt) × (o ≡ some a) × Still a × (scanned l b a ≡ some ps)
  proved_in none ps h = ground arith
  proved_in (some a) ps h = let (st, r) = judge_attempt-Still a ps h in (a, refl, st, r)

  pub read_attempts-ReadIn :
      (scan : ℕ → Option Attempt) (n : ℕ) (ps : List CompletionProof)
      → read_attempts l b scan n ≡ evidence ps
      → ReadIn scan n ps
  unfolding read_attempts
  read_attempts-ReadIn scan zero ps h = ground arith
  read_attempts-ReadIn scan (suc n) ps h =
      elim (by_verdict (verdict_in l b (scan n)) (read_attempts l b scan n) ps h) [
        | inl v ↦ let (a, e, st, r) = proved_in (scan n) ps v in (n, a, omega arith, e, st, r)
        | inr r ↦ later_attempt scan n ps (read_attempts-ReadIn scan n ps r)
      ]
