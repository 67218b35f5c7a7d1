-- ===== src/Domain/Pauses.antt =====
-- `PauseReasonSchema` of domain.ts.
pub data PauseReason : Type 0 where
  lease_lost sequence_gap session_failed mutation_uncertain usage_unknown : PauseReason
  preparation_failed checkpoint_invalid compaction_capacity : PauseReason
  compaction_failed restore_failed : PauseReason
