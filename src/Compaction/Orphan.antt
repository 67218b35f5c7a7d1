-- ===== src/Compaction/Orphan.antt =====
-- compaction/orphan-recovery.ts: the lines of a session file, read for the proof that a prepared
-- compaction has left nothing behind.
use whats_app_mcp_server.Base.{
  ℕ, suc, Bool, true, false, not, ◌&&◌, ◌||◌, Option, none, some, List, [], ◌∷◌, if◌then◌else◌, leb,
  Text, text, text_eq, holds, is_some,
}
use whats_app_mcp_server.Json.{
  Json, boolean, Members, ◌>>=◌, ◌>>◌, guard, at, as_object, as_text, is_finite,
}
use whats_app_mcp_server.Domain.Patterns.{is_opaque_id}
use whats_app_mcp_server.Domain.Schemas.{binding_of, marker_of, text_field}
use whats_app_mcp_server.Domain.Mutations.{JournalRecord, journal_record_of}
use whats_app_mcp_server.Domain.Checkpoints.{
  CheckpointV1, ToolOutcome, FileGeneration, checkpoint_of,
}
use whats_app_mcp_server.Scheduler.Work.{SessionBinding, is_bound, same_binding, CompletionMarker}
use whats_app_mcp_server.Session.Log.{
  Language, is_header, entry_head, is_shaped, is_whole, binding_type, completion_type,
  mutation_type, starts_with,
}
use whats_app_mcp_server.Compaction.Checkpoint.{
  Texts, checkpoint_identity, same_identity, validate_checkpoint, render_checkpoint_summary,
}
use whats_app_mcp_server.Compaction.History.{same_outcome}

-- A checkpoint record in phase `prepared`; of its `recovery` only the generation is looked at.
pub record Prepared : Type 0 where
  pub checkpoint_id : Text
  pub checkpoint : CheckpointV1
  pub generation : Option FileGeneration

unfoldable pub texts_eq : List Text → List Text → Bool
texts_eq [] [] = true
texts_eq (x ∷ xs) (y ∷ ys) = text_eq x y && texts_eq xs ys
texts_eq _ _ = false

unfoldable pub outcomes_eq : List ToolOutcome → List ToolOutcome → Bool
outcomes_eq [] [] = true
outcomes_eq (x ∷ xs) (y ∷ ys) = same_outcome x y && outcomes_eq xs ys
outcomes_eq _ _ = false

-- `isDeepStrictEqual` of two checkpoints.
unfoldable pub same_checkpoint : CheckpointV1 → CheckpointV1 → Bool
unfolding texts_eq outcomes_eq
same_checkpoint a b =
    same_identity (checkpoint_identity a) (checkpoint_identity b)
    && texts_eq a.goals b.goals
    && texts_eq a.decisions b.decisions
    && texts_eq a.constraints b.constraints
    && texts_eq a.verified_facts b.verified_facts
    && texts_eq a.pending_work b.pending_work
    && texts_eq a.approval_boundaries b.approval_boundaries
    && texts_eq a.next_steps b.next_steps
    && outcomes_eq a.confirmed_tool_outcomes b.confirmed_tool_outcomes

-- `a >= b` on times; NaN is never.
abbrev pub at_or_after : Option ℕ → Option ℕ → Bool
at_or_after (some a) (some b) = leb b a
at_or_after _ _ = false

abbrev pub date_of : Language → Option Text → Option ℕ
date_of l none = none
date_of l (some t) = l.parse_date t

-- `controllerDetails`.
unfoldable pub controller_details : Option Json → Option Members
controller_details v = as_object v >>= λ ms.
    if is_some (at (text "checkpointId") ms)
      || is_some (at (text "checkpoint") ms)
      || is_whole (at (text "version") ms) 1
    then some ms
    else none

abbrev is_true : Option Json → Bool
is_true (some (boolean b)) = b
is_true _ = false

-- What one attempt keeps.
pub record Proving : Type 0 where
  pub header_seen : Bool
  pub ids : List Text
  pub binding_count : ℕ
  pub unsafe : Bool

abbrev pub unproved : Proving
unproved = record { header_seen = false; ids = []; binding_count = 0; unsafe = false }

abbrev pub mark_unsafe : Bool → Proving → Proving
mark_unsafe c s = record s { unsafe = s.unsafe || c }

-- What the proof is about.
pub record Subject : Type 0 where
  pub language : Language
  pub texts : Texts
  pub binding : SessionBinding
  pub event_id : Text
  pub prepared : Prepared
  pub max_bytes : ℕ

module _ (p : Subject) where
  -- `appendedAfterPreparation`.
  abbrev pub is_late : Members → Bool
  is_late e =
      at_or_after (date_of p.language (as_text (at (text "timestamp") e)))
        (p.language.parse_date p.prepared.checkpoint.created_at)

  -- A compaction by the controller: its id and its checkpoint, or an exception.
  unfoldable pub claim_of : Members → Members → Option (Text × CheckpointV1)
  unfolding text_field
  claim_of e details = do
    id ← text_field is_opaque_id (text "checkpointId") details
    v ← at (text "checkpoint") details
    c ← checkpoint_of (some v)
    guard (is_whole (at (text "version") details) 1 && is_true (at (text "fromHook") e))
    restored ← validate_checkpoint p.texts v (checkpoint_identity c) p.max_bytes
    summary ← render_checkpoint_summary p.texts v id (checkpoint_identity restored) p.max_bytes
    guard (holds (as_text (at (text "summary") e)) summary)
    some (id, restored)

  -- Whether it is the prepared one, which is unsafe.
  unfoldable pub weigh_claim : Bool → Text × CheckpointV1 → Option Bool
  weigh_claim late (id, restored) =
      if text_eq id p.prepared.checkpoint_id
      then (if same_checkpoint restored p.prepared.checkpoint then some true else none)
      else if late
      then none
      else some false

  abbrev pub weigh_details : Members → Option Members → Option Bool
  weigh_details e none = if is_late e then none else some false
  weigh_details e (some details) = claim_of e details >>= weigh_claim (is_late e)

  -- The branch of a compaction; other entries pass.
  unfoldable pub weigh_compaction : Text → Members → Option Bool
  unfolding controller_details
  weigh_compaction kind e =
      if text_eq kind (text "compaction")
      then (if is_finite (at (text "tokensBefore") e)
          then weigh_details e (controller_details (at (text "details") e))
          else none)
      else some false

  unfoldable pub prove_marker : CompletionMarker → Proving → Option Proving
  prove_marker m s =
      if text_eq m.canonical_chat_id p.binding.canonical_chat_id
      then some (mark_unsafe (text_eq m.event_id p.event_id) s)
      else none

  unfoldable pub prove_record : JournalRecord → Proving → Option Proving
  prove_record r s =
      if same_binding r.session p.binding
        && text_eq r.state.canonical_chat_id p.binding.canonical_chat_id
      then some (mark_unsafe (text_eq r.state.event_id p.event_id) s)
      else none

  unfoldable pub prove_binding : Option SessionBinding → Proving → Option Proving
  prove_binding c s =
      if is_bound c p.binding then some (record s { binding_count = suc s.binding_count }) else none

  unfoldable pub prove_custom : Members → Proving → Option Proving
  prove_custom e s = as_text (at (text "customType") e) >>= λ kind.
      if text_eq kind binding_type
      then prove_binding (binding_of (at (text "data") e)) s
      else if text_eq kind completion_type
      then (marker_of (at (text "data") e) >>= λ m. prove_marker m s)
      else if text_eq kind mutation_type
      then (journal_record_of (at (text "data") e) >>= λ r. prove_record r s)
      else if starts_with (text "whatsapp.controller.") kind
      then none
      else some s

  unfoldable pub prove_shaped : Text → Text → Members → Proving → Option Proving
  prove_shaped kind id e s =
      let t = record s { ids = id ∷ s.ids } in
      if not (is_shaped t.ids kind e)
      then none
      else weigh_compaction kind e >>= λ matching.
          let u = mark_unsafe (matching || is_late e) t in
          if text_eq kind (text "custom") then prove_custom e u else some u

  unfoldable pub prove_entry : Members → Proving → Option Proving
  prove_entry e s = entry_head p.language s.ids e >>= λ h. prove_shaped h.0 h.1 e s

  unfoldable pub prove_line : Text → Proving → Option Proving
  prove_line line s = as_object (p.language.parse line) >>= λ e.
      if s.header_seen
      then prove_entry e s
      else if is_header p.language p.binding.session_id e
      then some (record s { header_seen = true })
      else none

  unfoldable pub prove_lines : List Text → Proving → Option Proving
  prove_lines [] s = some s
  prove_lines (x ∷ xs) s = prove_line x s >>= λ t. prove_lines xs t
