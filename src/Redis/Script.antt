-- ===== src/Redis/Script.antt =====
-- The dispatch of redis/scripts.ts on ARGV[1], the commands of Redis that it calls on streams, and
-- histories of calls. A call runs alone, at one reading of the server's clock.
use whats_app_mcp_server.Base.{ℕ, Option, none, some, List, [], ◌∷◌, Text}
use whats_app_mcp_server.Redis.Store.{
  PauseReason, Mutation, ToolRecord, Store, Reply, Fence, Work, barrier, grant,
}
use whats_app_mcp_server.Redis.Intake.{
  GroupReply, AcceptArgs, init, take_snapshot, accept, admit, read,
}
use whats_app_mcp_server.Redis.App.{app_acquire, app_renew, app_release}
use whats_app_mcp_server.Redis.Claim.{
  ClaimArgs, RecoverArgs, claim, claim_next, claim_gap, claim_event, recover_pel,
}
use whats_app_mcp_server.Redis.Turn.{
  Sent, check_work, turn_state, begin_turn, renew, pause, bind, complete, finish,
}
use whats_app_mcp_server.Redis.Journal.{
  Transition, journal_begin, native_journal_begin, journal_transition, journal_list,
}
use whats_app_mcp_server.Redis.Documents.{Decoder}
use whats_app_mcp_server.Redis.Repair.{
  StreamReads, RepairArgs, repair_intent, repair_claim, repair_release_fence, repair_release,
  repair_grant,
}
use whats_app_mcp_server.Redis.Checkpoint.{
  TransitionArgs, AbortArgs, checkpoint_prepare, checkpoint_transition, checkpoint_abort,
  checkpoint_latest, put_checkpoint, replace,
}

-- What the script does not implement: the stream commands and the JSON decoder.
pub record Ports (S : Type 0) : Type 0 where
  pub xgroup_create : S → Text → S × GroupReply
  pub xadd : S → Text → S × Text
  pub xclaim : S → Text → Text → Text → S × List Text
  pub xautoclaim : S → Text → Text → Text → ℕ → S × Option (Text × List Text × List Text)
  pub xack : S → Text → Text → S
  pub xdel : S → Text → S
  pub reads : StreamReads S
  pub decoder : Decoder

pub data Call : Type 0 where
  init_chat : Text → Text → Call
  snapshots : Call
  accepts : AcceptArgs → Call
  acquires_app : Text → ℕ → Call
  renews_app : Text → Text → ℕ → Call
  releases_app : Text → Text → Call
  claims : ClaimArgs → Call
  recovers : RecoverArgs → Call
  intends_repair : RepairArgs → Call
  claims_repair : RepairArgs → Text → Call
  releases_fence : Fence → Call
  releases_repair : Work → Text → Call
  checks : Work → Call
  asks_turn : Work → Call
  begins_turn : Work → Call
  reads_chat : Call
  renews : Work → ℕ → Call
  pauses : Work → PauseReason → Call
  binds : Work → Text → Call
  completes : Work → Text → Text → List Sent → Call
  begins_journal : Work → Text → ToolRecord → Call
  begins_native : Work → Text → Text → Mutation → Text → Call
  moves_journal : Work → Text → Transition → Call
  lists_journal : Call
  prepares : Work → Text → Text → Call
  moves_checkpoint : Work → TransitionArgs → Call
  aborts_checkpoint : Work → AbortArgs → Call
  asks_checkpoint : Call

-- The line opens every operation with its helpers, for the proofs that compute with `run`.
module _ {S : Type 0} (p : Ports S) where
  unfoldable pub run : Store S → ℕ → Call → Store S × Reply
  unfolding barrier grant init take_snapshot accept admit read app_acquire app_renew app_release
      claim claim_next claim_gap claim_event recover_pel check_work turn_state begin_turn renew
      pause bind complete finish journal_begin native_journal_begin journal_transition journal_list
      repair_intent repair_claim repair_release_fence repair_release repair_grant checkpoint_prepare
      checkpoint_transition checkpoint_abort checkpoint_latest put_checkpoint replace
  run s now (init_chat chat group) = init p.xgroup_create s chat group
  run s now snapshots = take_snapshot s
  run s now (accepts a) = accept p.xadd s a
  run s now (acquires_app owner ms) = app_acquire s now owner ms
  run s now (renews_app owner epoch ms) = app_renew s now owner epoch ms
  run s now (releases_app owner epoch) = app_release s now owner epoch
  run s now (claims a) = claim p.xclaim s now a
  run s now (recovers a) = recover_pel p.xautoclaim s now a
  run s now (intends_repair a) = repair_intent p.decoder p.reads s now a
  run s now (claims_repair a intent) = repair_claim p.decoder p.reads s now a intent
  run s now (releases_fence f) = repair_release_fence s now f
  run s now (releases_repair w expected) = repair_release p.decoder s now w expected
  run s now (checks w) = check_work s now w
  run s now (asks_turn w) = turn_state s now w
  run s now (begins_turn w) = begin_turn s now w
  run s now reads_chat = read s
  run s now (renews w ms) = renew s now w ms
  run s now (pauses w reason) = pause s now w reason
  run s now (binds w session) = bind s now w session
  run s now (completes w session group sends) = complete p.xack p.xdel s now w session group sends
  run s now (begins_journal w attempt r) = journal_begin s now w attempt r
  run s now (begins_native w attempt fp t session) =
      native_journal_begin s now w attempt fp t session
  run s now (moves_journal w attempt next) = journal_transition s now w attempt next
  run s now lists_journal = journal_list s
  run s now (prepares w raw session) = checkpoint_prepare p.decoder s now w raw session
  run s now (moves_checkpoint w a) = checkpoint_transition p.decoder s now w a
  run s now (aborts_checkpoint w a) = checkpoint_abort p.decoder p.reads s now w a
  run s now asks_checkpoint = checkpoint_latest s

  -- Calls by any clients, in the order in which Redis runs them.
  unfoldable pub run_all : Store S → List (ℕ × Call) → Store S
  run_all s [] = s
  run_all s ((now, c) ∷ cs) = run_all (run s now c).0 cs

-- The application lease that a call rests on: its owner and epoch.
unfoldable pub app_claim : Call → Option (Text × Text)
app_claim (renews_app owner epoch ms) = some (owner, epoch)
app_claim (releases_app owner epoch) = some (owner, epoch)
app_claim (claims a) = some (a.app_owner, a.app_epoch)
app_claim (recovers a) = some (a.app_owner, a.app_epoch)
app_claim (intends_repair a) = some (a.app_owner, a.app_epoch)
app_claim (claims_repair a intent) = some (a.app_owner, a.app_epoch)
app_claim (releases_fence f) = some (f.app_owner, f.app_epoch)
app_claim (releases_repair w expected) = some (w.fence.app_owner, w.fence.app_epoch)
app_claim (checks w) = some (w.fence.app_owner, w.fence.app_epoch)
app_claim (asks_turn w) = some (w.fence.app_owner, w.fence.app_epoch)
app_claim (begins_turn w) = some (w.fence.app_owner, w.fence.app_epoch)
app_claim (renews w ms) = some (w.fence.app_owner, w.fence.app_epoch)
app_claim (pauses w reason) = some (w.fence.app_owner, w.fence.app_epoch)
app_claim (binds w session) = some (w.fence.app_owner, w.fence.app_epoch)
app_claim (completes w session group sends) = some (w.fence.app_owner, w.fence.app_epoch)
app_claim (begins_journal w attempt r) = some (w.fence.app_owner, w.fence.app_epoch)
app_claim (begins_native w attempt fp t session) = some (w.fence.app_owner, w.fence.app_epoch)
app_claim (moves_journal w attempt next) = some (w.fence.app_owner, w.fence.app_epoch)
app_claim (prepares w raw session) = some (w.fence.app_owner, w.fence.app_epoch)
app_claim (moves_checkpoint w a) = some (w.fence.app_owner, w.fence.app_epoch)
app_claim (aborts_checkpoint w a) = some (w.fence.app_owner, w.fence.app_epoch)
app_claim _ = none
