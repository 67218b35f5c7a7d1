-- ===== src/Compaction/Generation.antt =====
-- compaction/orphan-recovery.ts: the generations of a session file, their capture, and the proof of an
-- orphan over several attempts.
use whats_app_mcp_server.Base.{
  ℕ, zero, suc, ◌+◌, ◌*◌, ◌-◌, Bool, false, not, ◌&&◌, ◌||◌, Option, none, some, List, [], ◌∷◌,
  ◌++◌, if◌then◌else◌, ltb, any, is_empty, Text, text_eq, ◌==◌,
}
use whats_app_mcp_server.Json.{◌>>=◌}
use whats_app_mcp_server.Domain.Patterns.{is_digit}
use whats_app_mcp_server.Domain.Fingerprint.{decimal}
use whats_app_mcp_server.Domain.Checkpoints.{FileGeneration, same_generation}
use whats_app_mcp_server.Intake.Payload.{utf8_length}
use whats_app_mcp_server.Intake.Timestamp.{scan}
use whats_app_mcp_server.Scheduler.Work.{SessionBinding}
use whats_app_mcp_server.Session.Log.{Language}
use whats_app_mcp_server.Session.Evidence.{Chunk, broken, text_chunk, lines_of}
use whats_app_mcp_server.Session.Paths.{Files, Walk, reached, check_ancestors}
use whats_app_mcp_server.Compaction.Orphan.{Subject, Proving, unproved, prove_lines}

-- `stat` or `lstat` with the times in nanoseconds since 1970; times before it are left out.
pub record FileStat : Type 0 where
  pub is_file : Bool
  pub is_link : Bool
  pub device : ℕ
  pub inode : ℕ
  pub size : ℕ
  pub mtime : ℕ
  pub ctime : ℕ

-- `generation`: the numbers as texts, which the schema bounds at 32 digits.
abbrev fits : ℕ → Bool
fits n = ltb n 100000000000000000000000000000000

unfoldable pub generation_of : FileStat → Option FileGeneration
unfolding decimal
generation_of s =
    if fits s.device && fits s.inode && fits s.size && fits s.mtime && fits s.ctime
    then some (record {
      device = decimal 32 s.device;
      inode = decimal 32 s.inode;
      size = decimal 32 s.size;
      mtime_ns = decimal 32 s.mtime;
      ctime_ns = decimal 32 s.ctime;
    })
    else none

-- `assertPath` and `assertAncestors`, which are those of pi/completion-index.ts again.
unfoldable pub assert_ancestors : Files → Text → SessionBinding → Walk
assert_ancestors f root b = check_ancestors f root b

-- One attempt of the capture.
pub record Capture : Type 0 where
  pub before : FileStat
  pub after : FileStat
  pub named : FileStat

-- The attempt gives a generation, wants another attempt (`some none`), or throws.
unfoldable pub capture_once : Capture → Option (Option FileGeneration)
unfolding generation_of same_generation
capture_once c =
    if not c.before.is_file || c.before.size == 0 || c.named.is_link
    then none
    else generation_of c.before >>= λ g. generation_of c.after >>= λ h.
        if not (same_generation g h)
        then some none
        else generation_of c.named >>= λ k. some (if same_generation g k then some g else none)

-- `captureStableSessionFileGeneration`, with `n` attempts left; an attempt that throws is none.
unfoldable pub capture_attempts : (ℕ → Option Capture) → ℕ → Option FileGeneration
capture_attempts sees zero = none
capture_attempts sees (suc n) = elim (sees n >>= capture_once) [
  | none ↦ none
  | some o ↦ elim o [ none ↦ capture_attempts sees n | some g ↦ some g ]
]

unfoldable pub capture_generation :
    Files → Text → SessionBinding → (ℕ → Option Capture) → Option FileGeneration
unfolding capture_attempts
capture_generation f root b sees = elim (assert_ancestors f root b) [
  | reached ↦ capture_attempts sees 8
  | _ ↦ none
]

-- The first characters of a text, and the rest.
unfoldable pub split_at : ℕ → Text → Text × Text
split_at zero t = ([], t)
split_at (suc n) [] = ([], [])
split_at (suc n) (c ∷ cs) = let (a, b) = split_at n cs in (c ∷ a, b)

-- The digits in front, as a number with how many there are; and the rest.
unfoldable pub digits_of : ℕ → ℕ → Text → ℕ × ℕ × Text
digits_of acc n [] = (acc, n, [])
digits_of acc n (c ∷ cs) =
    let rest = digits_of (10 * acc + (c - 48)) (n + 1) cs in
    if is_digit c then rest else (acc, n, c ∷ cs)

unfoldable pub power_of_ten : ℕ → ℕ
power_of_ten zero = 1
power_of_ten (suc n) = 10 * power_of_ten n

-- The fraction in nanoseconds, and the zone behind it.
abbrev pub fraction_of : Text → ℕ × Text
fraction_of [] = (0, [])
fraction_of (c ∷ cs) =
    if c == b'.'
    then (let (v, n, zone) = digits_of 0 0 cs in (v * power_of_ten (9 - n), zone))
    else (0, c ∷ cs)

-- `timestampNs`, from the earliest time that JavaScript has.
unfoldable pub timestamp_ns : Language → Text → Option ℕ
unfolding split_at digits_of power_of_ten
timestamp_ns l t = scan t >>= λ _.
    let (date, rest) = split_at 19 t in
    let (ns, zone) = fraction_of rest in
    l.parse_date (date ++ zone) >>= λ ms. some (ms * 1000000 + ns)

-- 1970 in nanoseconds from there.
abbrev pub epoch_ns : ℕ
epoch_ns = 8640000000000000000000

-- One attempt of the proof.
pub record Inspection : Type 0 where
  pub before : FileStat
  pub chunks : List Chunk
  pub flushes : Bool
  pub after : FileStat
  pub named : FileStat

abbrev pub has_newline : Text → Bool
has_newline t = any (λ c. c == 10) t

-- The loop over the chunks; a line of more than 8 MiB ends it.
unfoldable pub prove_chunks : Subject → List Chunk → Text → Proving → Option (Text × Proving)
unfolding utf8_length lines_of
prove_chunks p [] pending s = some (pending, s)
prove_chunks p (broken ∷ cs) pending s = none
prove_chunks p (text_chunk t ∷ cs) pending s =
    if ltb 8388608 (utf8_length false (pending ++ t)) && not (has_newline (pending ++ t))
    then none
    else (let (xs, rest) = lines_of (pending ++ t) in
        prove_lines p xs s >>= λ u. prove_chunks p cs rest u)

abbrev pub is_proved : Option (Text × Proving) → Bool
is_proved none = false
is_proved (some (pending, s)) =
    is_empty pending && s.header_seen && s.binding_count == 1 && not s.unsafe

unfoldable pub inspected : Subject → Inspection → Bool
inspected p i = i.flushes && is_proved (prove_chunks p i.chunks [] unproved)

abbrev pub steady : Inspection → Bool
steady i =
    i.before.size == i.after.size
    && i.before.mtime == i.after.mtime
    && i.before.ctime == i.after.ctime
    && i.after.inode == i.named.inode
    && i.after.device == i.named.device
    && i.after.size == i.named.size
    && i.after.mtime == i.named.mtime
    && i.after.ctime == i.named.ctime

-- Before the preparation: the file's times, against `createdNs`.
abbrev pub is_older : FileStat → Option ℕ → Bool
is_older s none = false
is_older s (some created) = ltb (epoch_ns + s.mtime) created && ltb (epoch_ns + s.ctime) created

abbrev pub is_generation : Subject → FileStat → FileGeneration → Option FileGeneration → Bool
is_generation p s g (some recorded) = same_generation g recorded
is_generation p s g none = is_older s (timestamp_ns p.language p.prepared.checkpoint.created_at)

-- One attempt: another is wanted (`some none`), an exception, or the generation.
unfoldable pub inspect_once : Subject → Inspection → Option (Option FileGeneration)
unfolding generation_of same_generation timestamp_ns
inspect_once p i =
    if not i.before.is_file || i.before.size == 0
    then none
    else if not (steady i)
    then some none
    else if not (inspected p i) || i.named.is_link
    then none
    else generation_of i.after >>= λ g.
        if is_generation p i.after g p.prepared.generation then some (some g) else none

unfoldable pub inspect_attempts : Subject → (ℕ → Option Inspection) → ℕ → Option FileGeneration
inspect_attempts p sees zero = none
inspect_attempts p sees (suc n) = elim (sees n >>= inspect_once p) [
  | none ↦ none
  | some o ↦ elim o [ none ↦ inspect_attempts p sees n | some g ↦ some g ]
]

-- `provePreparedCompactionOrphan`.
unfoldable pub prove_orphan :
    Files → Text → Subject → (ℕ → Option Inspection) → Option FileGeneration
unfolding inspect_attempts
prove_orphan f root p sees = elim (assert_ancestors f root p.binding) [
  | reached ↦
      if text_eq p.prepared.checkpoint.canonical_chat_id p.binding.canonical_chat_id
      then inspect_attempts p sees 8
      else none
  | _ ↦ none
]
