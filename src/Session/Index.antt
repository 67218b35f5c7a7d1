-- ===== src/Session/Index.antt =====
-- `createCompletionIndex` of pi/completion-index.ts: the cache of the proofs of each session file,
-- the reservations of the host, and the lookups over the sessions of all chats.
use whats_app_mcp_server.Base.{
  Bool, true, false, not, ◌&&◌, ◌||◌, Option, none, some, List, [], ◌∷◌, ◌++◌, ◌==◌, if◌then◌else◌,
  length, any, Text, text_eq, Dict, lookup, insert, remove,
}
use whats_app_mcp_server.Intake.Payload.{includes, first, AdmissionPolicy}
use whats_app_mcp_server.Scheduler.Work.{SessionBinding, CompletionProof}
use whats_app_mcp_server.Session.Evidence.{
  Stat, same_file, Findings, failure, not_durable, evidence,
}

-- The proofs of a file, with the sample of the file at which they were read.
pub record Cached : Type 0 where
  pub identity : Stat
  pub proofs : List CompletionProof

-- By session file.
pub record Index : Type 0 where
  pub poisoned : List Text
  pub pending : List Text
  pub cache : Dict Cached

-- `set.delete(t)`.
unfoldable pub without : Text → List Text → List Text
without t [] = []
without t (x ∷ xs) = let rest = without t xs in if text_eq x t then rest else x ∷ rest

unfoldable pub poison : SessionBinding → Index → Index
unfolding remove
poison b x = record {
  poisoned = b.session_file ∷ x.poisoned;
  pending = without b.session_file x.pending;
  cache = remove b.session_file x.cache;
}

-- `invalidate`, and the three calls that may throw.
unfoldable pub invalidate : SessionBinding → Index → Index
unfolding poison
invalidate b x = poison b x

unfoldable pub reserve_file : SessionBinding → Index → Option Index
unfolding remove
reserve_file b x =
    if includes x.poisoned b.session_file || includes x.pending b.session_file
    then none
    else some
        (record x { cache = remove b.session_file x.cache; pending = b.session_file ∷ x.pending })

unfoldable pub publish : SessionBinding → Index → Option Index
publish b x =
    if includes x.poisoned b.session_file || not (includes x.pending b.session_file)
    then none
    else some (record x { pending = without b.session_file x.pending })

-- What one call of `evidence` sees of the file: the first sample, the one that confirms the cache,
-- the reading, and the sample after it. A sample that throws is none; the path is checked with each.
pub record Looks : Type 0 where
  pub on_path : Bool
  pub before : Option Stat
  pub confirming : Option Stat
  pub reading : Findings
  pub after : Option Stat

-- `identity`.
unfoldable pub identity : Bool → Option Stat → Option Stat
identity on_path none = none
identity on_path (some s) = if on_path && s.is_file && not s.is_link then some s else none

-- The proofs of the cache, if both samples are the cached one's.
abbrev pub sampled :
    Option Stat → Stat → List CompletionProof → Option (Option (List CompletionProof))
sampled none s ps = none
sampled (some t) s ps = some (if same_file s t then some ps else none)

-- A hit of the cache, a miss (`some none`), or an exception.
unfoldable pub in_cache :
    Option Cached → Stat → Option Stat → Option (Option (List CompletionProof))
in_cache none s c = some none
in_cache (some k) s c = if same_file k.identity s then sampled c s k.proofs else some none

-- The result of the reading goes to the cache if the file is still the same.
abbrev pub kept_if :
    SessionBinding
    → Index
    → Stat
    → List CompletionProof
    → Option Stat
    → Index × Option (List CompletionProof)
kept_if b x s ps none = (poison b x, none)
kept_if b x s ps (some t) =
    if same_file s t
    then (
      record x { cache = insert b.session_file (record { identity = t; proofs = ps }) x.cache },
      some ps,
    )
    else (x, some ps)

abbrev pub read_into :
    SessionBinding → Index → Stat → Findings → Option Stat → Index × Option (List CompletionProof)
read_into b x s failure after = (poison b x, none)
read_into b x s not_durable after = (poison b x, none)
read_into b x s (evidence ps) after = kept_if b x s ps after

abbrev pub from_cache :
    SessionBinding
    → Index
    → Looks
    → Stat
    → Option (Option (List CompletionProof))
    → Index × Option (List CompletionProof)
from_cache b x l s none = (poison b x, none)
from_cache b x l s (some (some ps)) = (x, some ps)
from_cache b x l s (some none) = read_into b x s l.reading (identity l.on_path l.after)

abbrev pub sampled_first :
    SessionBinding → Index → Looks → Option Stat → Index × Option (List CompletionProof)
sampled_first b x l none = (poison b x, none)
sampled_first b x l (some s) =
    from_cache b x l s
      (in_cache (lookup b.session_file x.cache) s (identity l.on_path l.confirming))

-- `evidence`.
unfoldable pub file_evidence :
    SessionBinding → Looks → Index → Index × Option (List CompletionProof)
unfolding poison identity in_cache lookup insert
file_evidence b l x =
    if includes x.poisoned b.session_file
    then (x, none)
    else sampled_first b x l (identity l.on_path l.before)

-- A chat, and its session if it ever had one.
pub record Row : Type 0 where
  pub chat : Text
  pub binding : Option SessionBinding

module _ (policy : AdmissionPolicy) where
  abbrev put_first : Option Text → List Text → List Text
  put_first none gs = gs
  put_first (some o) gs = gs ++ o ∷ []

  unfoldable pub canonical_chats : List Text
  canonical_chats = put_first (first policy.operator_jids) policy.groups

-- `new Set(xs).size === xs.length`.
unfoldable pub unrepeated : List Text → Bool
unrepeated [] = true
unrepeated (x ∷ xs) = not (includes xs x) && unrepeated xs

unfoldable pub chats_of : List Row → List Text
chats_of [] = []
chats_of (r ∷ rs) = r.chat ∷ chats_of rs

-- The loop over the rows: each session is of its chat, at a path below the root, in a file of its own.
abbrev pub row_fits :
    (SessionBinding → Bool) → List Text → Row → Option SessionBinding → Option (List Text)
row_fits on_path seen r none = some seen
row_fits on_path seen r (some b) =
    if on_path b && text_eq b.canonical_chat_id r.chat && not (includes seen b.session_file)
    then some (b.session_file ∷ seen)
    else none

unfoldable pub rows_fit : (SessionBinding → Bool) → List Text → List Row → Bool
rows_fit on_path seen [] = true
rows_fit on_path seen (r ∷ rs) = elim (row_fits on_path seen r r.binding) [
  | none ↦ false
  | some t ↦ rows_fit on_path t rs
]

-- `snapshot`: exactly the configured chats.
unfoldable pub is_snapshot : (SessionBinding → Bool) → List Text → List Row → Bool
unfolding rows_fit unrepeated chats_of
is_snapshot on_path chats rows =
    length rows == length chats
    && unrepeated (chats_of rows)
    && not (any (λ c. not (includes chats c)) (chats_of rows))
    && rows_fit on_path [] rows
