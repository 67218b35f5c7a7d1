-- ===== src/Tests/Repairs.antt =====
-- The repair of an interrupted compaction, and the moves of a checkpoint.
use whats_app_mcp_server.Base.{ℕ, ◌≡◌, refl, none, some, Text, text}
use whats_app_mcp_server.Redis.Store.{Store, compaction_failed}
use whats_app_mcp_server.Redis.Documents.{compacted}
use whats_app_mcp_server.Redis.Repair.{RepairArgs, Evidence}
use whats_app_mcp_server.Redis.Checkpoint.{TransitionArgs, AbortArgs}
use whats_app_mcp_server.Redis.Script.{run, claims_repair, moves_checkpoint, aborts_checkpoint}
use whats_app_mcp_server.Redis.Recovery.{Interrupted, SameWork, abort_needs_evidence}
use whats_app_mcp_server.Tests.Setup.{ports, waiting, leased, held, evaluation}

-- The event waits, its compaction has failed, and the record is still prepared.
abbrev interrupted : Store ℕ
interrupted = record waiting {
  state = record (waiting.state) { pause = some compaction_failed; session = some (text "S") };
  checkpoint = some (text "P");
}

abbrev repair_args : RepairArgs
repair_args = record {
  app_owner = text "a";
  app_epoch = text "1";
  chat_owner = text "w";
  lease_ms = 50;
  group = text "g";
  chat = text "c";
}

abbrev repairing : Store ℕ
repairing = (run ports interrupted 12 (claims_repair repair_args (text "i"))).0

abbrev abort_args : AbortArgs
abort_args = record {
  session = text "S";
  checkpoint_id = text "k";
  expected = text "P";
  next = text "A";
  intent = text "i";
  group = text "g";
}

abbrev repaired : Store ℕ
repaired = (run ports repairing 20 (aborts_checkpoint held abort_args)).0

abort_needs_evidence_example :
    (chat : Text) × (v : Evidence) × Interrupted ports.decoder ports.reads repairing chat
      (text "g")
      (text "i")
      v
    × (v.event ≡ text "e1")
    × (v.raw ≡ text "P")
    × SameWork repairing repaired
    × (repaired.checkpoint ≡ some (text "A"))
    × (repaired.state.pause ≡ none)
    × (repaired.lease.owner ≡ none)
unfolding evaluation
abort_needs_evidence_example = abort_needs_evidence ports repairing repaired 20 held abort_args refl

abbrev move_args : TransitionArgs
move_args = record {
  checkpoint_id = text "k";
  phase = compacted;
  entry_id = text "n";
  expected = text "P";
  next = text "C";
}

abbrev preparing : Store ℕ
preparing = record leased { checkpoint = some (text "P") }

abbrev moved : Store ℕ
moved = (run ports preparing 20 (moves_checkpoint held move_args)).0
