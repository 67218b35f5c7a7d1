-- ===== src/Session/Evidence.antt =====
-- `readEvidence` of pi/completion-index.ts: the completion proofs of one session file, read strictly,
-- once the file has stood still and is durable.
use whats_app_mcp_server.Base.{
  ℕ, zero, suc, Bool, true, false, not, ◌&&◌, ◌||◌, Option, none, some, List, [], ◌∷◌, ◌++◌,
  if◌then◌else◌, is_empty, Text, text, text_eq, ◌==◌,
}
use whats_app_mcp_server.Json.{Members, string, ◌>>=◌, ◌>>◌, guard, at, as_object, as_text}
use whats_app_mcp_server.Domain.Schemas.{binding_of, marker_of, within}
use whats_app_mcp_server.Intake.Payload.{includes}
use whats_app_mcp_server.Scheduler.Work.{
  SessionBinding, same_binding, CompletionMarker, CompletionProof,
}
use whats_app_mcp_server.Session.Log.{
  Language, valid_time, is_header, entry_head, is_shaped, binding_type, completion_type,
  starts_with,
}

-- The variables of one attempt.
pub record Reading : Type 0 where
  pub header_seen : Bool
  pub bound : Bool
  pub ids : List Text
  pub events : List Text
  pub sequences : List ℕ
  pub proofs : List CompletionProof

abbrev pub unread : Reading
unread = record {
  header_seen = false;
  bound = false;
  ids = [];
  events = [];
  sequences = [];
  proofs = [];
}

-- `sequences.has(n)`.
unfoldable pub has_sequence : List ℕ → ℕ → Bool
has_sequence [] n = false
has_sequence (m ∷ ms) n = m == n || has_sequence ms n

abbrev pub adds : Reading → SessionBinding → Text → CompletionMarker → Reading
adds s b id m = record s {
  events = m.event_id ∷ s.events;
  sequences = m.chat_sequence ∷ s.sequences;
  proofs = s.proofs ++ record { marker = m; entry_id = id; session = b } ∷ [];
}

module _ (l : Language) (b : SessionBinding) where
  unfoldable pub consume_binding : Members → Reading → Option Reading
  consume_binding e s = do
    c ← binding_of (at (text "data") e)
    guard (not s.bound && same_binding c b)
    some (record s { bound = true })

  -- A marker of the chat that repeats no event and no sequence.
  unfoldable pub takes_marker : Text → Reading → CompletionMarker → Option Reading
  takes_marker id s m =
      if s.bound
        && text_eq m.canonical_chat_id b.canonical_chat_id
        && not (includes s.events m.event_id)
        && not (has_sequence s.sequences m.chat_sequence)
        && valid_time l (some (string m.completed_at))
        && within 1 128 id
      then some (adds s b id m)
      else none

  unfoldable pub consume_completion : Text → Members → Reading → Option Reading
  consume_completion id e s = marker_of (at (text "data") e) >>= takes_marker id s

  unfoldable pub consume_custom : Text → Members → Reading → Option Reading
  consume_custom id e s = as_text (at (text "customType") e) >>= λ kind.
      if text_eq kind binding_type
      then consume_binding e s
      else if text_eq kind completion_type
      then consume_completion id e s
      else if starts_with (text "whatsapp.controller.completed") kind
      then none
      else some s

  unfoldable pub consume_shaped : Text → Text → Members → Reading → Option Reading
  consume_shaped kind id e s =
      let t = record s { ids = id ∷ s.ids } in
      if not (is_shaped t.ids kind e)
      then none
      else if text_eq kind (text "custom")
      then consume_custom id e t
      else some t

  unfoldable pub consume_entry : Members → Reading → Option Reading
  consume_entry e s = entry_head l s.ids e >>= λ h. consume_shaped h.0 h.1 e s

  unfoldable pub consume : Text → Reading → Option Reading
  consume line s = as_object (l.parse line) >>= λ e.
      if s.header_seen
      then consume_entry e s
      else if is_header l b.session_id e
      then some (record s { header_seen = true })
      else none

  unfoldable pub consume_all : List Text → Reading → Option Reading
  consume_all [] s = some s
  consume_all (x ∷ xs) s = consume x s >>= λ t. consume_all xs t

-- The complete lines of a text, and what follows the last line feed.
abbrev pub put_char : ℕ → List Text → Text → List Text × Text
put_char c [] rest = ([], c ∷ rest)
put_char c (x ∷ xs) rest = ((c ∷ x) ∷ xs, rest)

unfoldable pub lines_of : Text → List Text × Text
lines_of [] = ([], [])
lines_of (c ∷ cs) =
    let (xs, rest) = lines_of cs in if c == 10 then ([] ∷ xs, rest) else put_char c xs rest

-- What one read gives: no bytes or an exception, or bytes with what the decoder makes of them; it
-- keeps an unfinished character for the next chunk.
pub data Chunk : Type 0 where
  broken : Chunk
  text_chunk : Text → Chunk

module _ (l : Language) (b : SessionBinding) where
  -- The loop over the chunks: `pending` and the variables.
  unfoldable pub read_chunks : List Chunk → Text → Reading → Option (Text × Reading)
  read_chunks [] pending s = some (pending, s)
  read_chunks (broken ∷ cs) pending s = none
  read_chunks (text_chunk t ∷ cs) pending s =
      let (xs, rest) = lines_of (pending ++ t) in
      consume_all l b xs s >>= λ u. read_chunks cs rest u

-- `stat` or `lstat`.
pub record Stat : Type 0 where
  pub is_file : Bool
  pub is_link : Bool
  pub device : ℕ
  pub inode : ℕ
  pub bytes : ℕ
  pub mtime : ℕ

-- What one attempt sees: `fstat` before, the chunks, whether the decoder ends without an unfinished
-- character, both samples after, whether both syncs succeed, and the two samples after them.
pub record Attempt : Type 0 where
  pub before : Stat
  pub chunks : List Chunk
  pub flushes : Bool
  pub after : Stat
  pub named : Stat
  pub synced : Bool
  pub durable : Stat
  pub durable_name : Stat

abbrev pub unchanged : Stat → Stat → Bool
unchanged a b = a.bytes == b.bytes && a.mtime == b.mtime

abbrev pub same_file : Stat → Stat → Bool
same_file a b = a.inode == b.inode && a.device == b.device && unchanged a b

pub data Verdict : Type 0 where
  again refused unsynced : Verdict
  proved : List CompletionProof → Verdict

-- Nothing is pending, and header and binding were there.
abbrev pub finished : Option (Text × Reading) → Option (List CompletionProof)
finished none = none
finished (some (pending, s)) =
    if is_empty pending && s.header_seen && s.bound then some s.proofs else none

unfoldable pub scanned : Language → SessionBinding → Attempt → Option (List CompletionProof)
scanned l b a = if a.flushes then finished (read_chunks l b a.chunks [] unread) else none

abbrev pub settle_read : Attempt → Option (List CompletionProof) → Verdict
settle_read a none = refused
settle_read a (some ps) =
    if not a.synced
    then unsynced
    else if not (unchanged a.after a.durable)
        || not (same_file a.durable a.durable_name)
        || a.durable_name.is_link
    then again
    else proved ps

-- One attempt.
unfoldable pub judge_attempt : Language → SessionBinding → Attempt → Verdict
judge_attempt l b a =
    if not a.before.is_file || a.before.bytes == 0
    then refused
    else if not (unchanged a.before a.after) || not (same_file a.after a.named)
    then again
    else settle_read a (scanned l b a)

-- What the reader returns: proofs, an error, or an error after `durabilityFailed()`.
pub data Findings : Type 0 where
  failure not_durable : Findings
  evidence : List CompletionProof → Findings

abbrev pub verdict_in : Language → SessionBinding → Option Attempt → Verdict
verdict_in l b none = refused
verdict_in l b (some a) = judge_attempt l b a

-- The loop of attempts, `n` of them left; none is an exception of the file system.
unfoldable pub read_attempts : Language → SessionBinding → (ℕ → Option Attempt) → ℕ → Findings
read_attempts l b scan zero = failure
read_attempts l b scan (suc n) = elim (verdict_in l b (scan n)) [
  | again ↦ read_attempts l b scan n
  | refused ↦ failure
  | unsynced ↦ not_durable
  | proved ps ↦ evidence ps
]
