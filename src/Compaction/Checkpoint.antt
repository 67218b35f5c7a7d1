-- ===== src/Compaction/Checkpoint.antt =====
-- compaction/checkpoint.ts: the validation of a checkpoint and the summary that is rendered from it.
use whats_app_mcp_server.Base.{
  ℕ, Bool, true, false, not, ◌&&◌, ◌||◌, Option, some, List, [], ◌∷◌, ◌++◌, map, leb, any, Text,
  text, text_eq, ◌==◌,
}
use whats_app_mcp_server.Json.{Json, ◌>>=◌, ◌>>◌, guard}
use whats_app_mcp_server.Domain.Checkpoints.{CheckpointV1, ToolOutcome, checkpoint_of}
use whats_app_mcp_server.Domain.Patterns.{is_opaque_id}
use whats_app_mcp_server.Domain.Fingerprint.{decimal}
use whats_app_mcp_server.Intake.Payload.{includes, utf8_length}
use whats_app_mcp_server.Compaction.Sensitive.{contains_sensitive}

-- What the language and the patterns give: `JSON.stringify`, and whether a text matches one of the
-- patterns of `sensitive`.
pub record Texts : Type 0 where
  pub stringify : Json → Text
  pub is_sensitive : Text → Bool

-- `CheckpointIdentity`.
pub record Identity : Type 0 where
  pub canonical_chat_id : Text
  pub last_completed_sequence : ℕ
  pub policy_version : Text
  pub template_version : Text
  pub created_at : Text

unfoldable pub checkpoint_identity : CheckpointV1 → Identity
checkpoint_identity c = record {
  canonical_chat_id = c.canonical_chat_id;
  last_completed_sequence = c.last_completed_sequence;
  policy_version = c.policy_version;
  template_version = c.template_version;
  created_at = c.created_at;
}

unfoldable pub same_identity : Identity → Identity → Bool
same_identity a b =
    text_eq a.canonical_chat_id b.canonical_chat_id
    && a.last_completed_sequence == b.last_completed_sequence
    && text_eq a.policy_version b.policy_version
    && text_eq a.template_version b.template_version
    && text_eq a.created_at b.created_at

-- `/[\r\n]/`.
abbrev pub has_break : Text → Bool
has_break t = any (λ c. c == 13 || c == 10) t

abbrev pub all_notes : CheckpointV1 → List Text
all_notes c =
    c.goals ++ c.decisions ++ c.constraints ++ c.verified_facts ++ c.pending_work
    ++ c.approval_boundaries ++ c.next_steps

-- The loop with the set of attempts.
unfoldable pub distinct_attempts : List Text → List ToolOutcome → Bool
distinct_attempts seen [] = true
distinct_attempts seen (o ∷ os) =
    not (includes seen o.attempt_id) && distinct_attempts (o.attempt_id ∷ seen) os

-- What is asked of a checkpoint that has the schema's form; `v` is the same as a value.
unfoldable pub is_valid : Texts → Json → CheckpointV1 → Identity → ℕ → Bool
unfolding contains_sensitive distinct_attempts same_identity checkpoint_identity
is_valid x v c expected bytes =
    not (any has_break (all_notes c))
    && distinct_attempts [] c.confirmed_tool_outcomes
    && same_identity (checkpoint_identity c) expected
    && not (contains_sensitive x.is_sensitive v)
    && leb (utf8_length false (x.stringify v)) bytes

unfoldable pub validate_checkpoint : Texts → Json → Identity → ℕ → Option CheckpointV1
validate_checkpoint x v expected bytes = do
  guard (leb 1024 bytes && leb bytes 262144)
  c ← checkpoint_of (some v)
  guard (is_valid x v c expected bytes)
  some c

abbrev bullet : Text → Text
bullet t = text "- " ++ t

abbrev or_none : List Text → List Text
or_none [] = text "- None recorded." ∷ []
or_none (t ∷ ts) = map bullet (t ∷ ts)

-- `lines`.
abbrev section : Text → List Text → List Text
section title ts = (text "## " ++ title) ∷ or_none ts

-- `join('\n')`.
unfoldable pub join_lines : List Text → Text
join_lines [] = []
join_lines (t ∷ []) = t
join_lines (t ∷ u ∷ ts) = t ++ 10 ∷ join_lines (u ∷ ts)

abbrev tool_line : ToolOutcome → Text
tool_line o = o.tool ++ text ": " ++ o.destination ++ text " (" ++ o.message_id ++ text ")"

unfoldable pub summary_lines : CheckpointV1 → Text → List Text
unfolding decimal
summary_lines c id =
    text "## Checkpoint Metadata"
      ∷ (text "- Checkpoint ID: " ++ id)
      ∷ (text "- Created at: " ++ c.created_at)
      ∷ section (text "Goals") c.goals
    ++ section (text "Decisions") c.decisions
    ++ section (text "Constraints") c.constraints
    ++ section (text "Verified Facts") c.verified_facts
    ++ section (text "Pending Work") c.pending_work
    ++ section (text "Confirmed Tool Outcomes") (map tool_line c.confirmed_tool_outcomes)
    ++ section (text "Approval Boundaries") c.approval_boundaries
    ++ section (text "Next Steps") c.next_steps
    ++ text "## Continuity"
      ∷ (text "- Canonical chat: " ++ c.canonical_chat_id)
      ∷ (text "- Last completed sequence: " ++ decimal 16 c.last_completed_sequence)
      ∷ (text "- Policy version: " ++ c.policy_version)
      ∷ (text "- Template version: " ++ c.template_version)
      ∷ []

-- The checkpoint is the value `v`. A summary is a text, so `containsSensitive` is one test of it.
unfoldable pub render_checkpoint_summary : Texts → Json → Text → Identity → ℕ → Option Text
render_checkpoint_summary x v id expected bytes = do
  c ← validate_checkpoint x v expected bytes
  guard (is_opaque_id id)
  let summary = join_lines (summary_lines c id)
  guard (leb (utf8_length false summary) bytes && not (x.is_sensitive summary))
  some summary
