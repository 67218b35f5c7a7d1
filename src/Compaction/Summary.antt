-- ===== src/Compaction/Summary.antt =====
-- compaction/checkpoint.ts: what a rendered summary has been checked for.
use whats_app_mcp_server.Base.{
  [], ℕ, ◌≤◌, ◌≡◌, sym, subst, arith, Bool, true, false, not, some, any, leb, leb_iff, Text,
}
use whats_app_mcp_server.Json.{Json}
use whats_app_mcp_server.Json.Inversion.{bind-some, guard-some, some-injective, and-true}
use whats_app_mcp_server.Domain.Checkpoints.{CheckpointV1, checkpoint_of}
use whats_app_mcp_server.Domain.Patterns.{is_opaque_id}
use whats_app_mcp_server.Intake.Payload.{utf8_length}
use whats_app_mcp_server.Compaction.Sensitive.{contains_sensitive, contains_sensitive_iff, has_text}
use whats_app_mcp_server.Compaction.Checkpoint.{
  Texts, Identity, checkpoint_identity, same_identity, has_break, all_notes, distinct_attempts,
  is_valid, validate_checkpoint, join_lines, summary_lines, render_checkpoint_summary,
}

not-true : (b : Bool) → not b ≡ true → b ≡ false
not-true b h = ground arith

-- What is checked of a checkpoint `c` that is the value `v`.
pub record Checked (x : Texts) (v : Json) (expected : Identity) (bytes : ℕ) (c : CheckpointV1)
    : Type 0 where
  pub bounded : bytes ≤ 262144
  pub parsed : checkpoint_of (some v) ≡ some c
  pub identified : same_identity (checkpoint_identity c) expected ≡ true
  pub unbroken : any has_break (all_notes c) ≡ false
  pub distinct : distinct_attempts [] c.confirmed_tool_outcomes ≡ true
  pub clean : has_text x.is_sensitive v ≡ false
  pub short : utf8_length false (x.stringify v) ≤ bytes

module _ (x : Texts) (v : Json) (expected : Identity) (bytes : ℕ) where
  is_valid-Checked :
      (c : CheckpointV1)
      → bytes ≤ 262144
      → checkpoint_of (some v) ≡ some c
      → is_valid x v c expected bytes ≡ true
      → Checked x v expected bytes c
  unfolding is_valid
  is_valid-Checked c b p h =
      let (h₁, short) = and-true _ (leb (utf8_length false (x.stringify v)) bytes) h in
      let (h₂, clean) = and-true _ (not (contains_sensitive x.is_sensitive v)) h₁ in
      let (h₃, identified) = and-true _ (same_identity (checkpoint_identity c) expected) h₂ in
      let (unbroken, distinct) =
        and-true (not (any has_break (all_notes c)))
          (distinct_attempts [] c.confirmed_tool_outcomes) h₃ in
      record {
        bounded = b;
        parsed = p;
        identified = identified;
        unbroken = not-true (any has_break (all_notes c)) unbroken;
        distinct = distinct;
        clean =
            ((contains_sensitive_iff x.is_sensitive v).0
              (not-true (contains_sensitive x.is_sensitive v) clean)).1;
        short = (leb_iff _ bytes).0 short;
      }

  validate_checkpoint-Checked :
      (c : CheckpointV1)
      → validate_checkpoint x v expected bytes ≡ some c
      → Checked x v expected bytes c
  unfolding validate_checkpoint
  validate_checkpoint-Checked c h =
      let (b, h₁) = guard-some _ _ h in
      let (low, high) = and-true (leb 1024 bytes) (leb bytes 262144) b in
      let (d, p, h₂) = bind-some (checkpoint_of (some v)) _ h₁ in
      let (valid, same) = guard-some _ _ h₂ in
      subst (Checked x v expected bytes) (some-injective same)
        (is_valid-Checked d ((leb_iff bytes 262144).0 high) p valid)

  -- A rendered summary is the lines of a checkpoint with the expected identity, of at most the given
  -- number of bytes, which is at most 262144; no note in it has a line break, no attempt stands in it
  -- twice, and neither a text of the checkpoint nor the summary matches a pattern of secrets.
  pub render_checkpoint_summary-Checked :
      (id summary : Text)
      → render_checkpoint_summary x v id expected bytes ≡ some summary
      → (c : CheckpointV1) × Checked x v expected bytes c
        × (is_opaque_id id ≡ true)
        × (summary ≡ join_lines (summary_lines c id))
        × (utf8_length false summary ≤ bytes)
        × (x.is_sensitive summary ≡ false)
  unfolding render_checkpoint_summary
  render_checkpoint_summary-Checked id summary h =
      let (c, p, h₁) = bind-some (validate_checkpoint x v expected bytes) _ h in
      let (o, h₂) = guard-some (is_opaque_id id) _ h₁ in
      let (t, same) = guard-some _ _ h₂ in
      let (short, clean) =
        and-true (leb (utf8_length false (join_lines (summary_lines c id))) bytes) _ t in
      (
        c,
        validate_checkpoint-Checked c p,
        o,
        sym (some-injective same),
        subst (λ z. utf8_length false z ≤ bytes) (some-injective same) ((leb_iff _ bytes).0 short),
        subst (λ z. x.is_sensitive z ≡ false) (some-injective same) (not-true _ clean),
      )
