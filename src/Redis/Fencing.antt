-- ===== src/Redis/Fencing.antt =====
-- redis/scripts.ts: what a call may do without the leases that it names.
use whats_app_mcp_server.Base.{
  ℕ, false, Option, none, some, Text, ◌≡◌, arith, Option-cases, inl, inr,
}
use whats_app_mcp_server.Redis.Store.{Store, Work, lost, app_alive, work}
use whats_app_mcp_server.Redis.Script.{
  Ports, Call, renews_app, releases_repair, checks, asks_turn, begins_turn, renews, pauses, binds,
  completes, begins_journal, begins_native, moves_journal, prepares, moves_checkpoint,
  aborts_checkpoint, run, app_claim,
}

-- The work that a call names.
unfoldable pub work_of : Call → Option Work
work_of (releases_repair w expected) = some w
work_of (checks w) = some w
work_of (asks_turn w) = some w
work_of (begins_turn w) = some w
work_of (renews w ms) = some w
work_of (pauses w reason) = some w
work_of (binds w session) = some w
work_of (completes w session group sends) = some w
work_of (begins_journal w attempt r) = some w
work_of (begins_native w attempt fp t session) = some w
work_of (moves_journal w attempt next) = some w
work_of (prepares w raw session) = some w
work_of (moves_checkpoint w a) = some w
work_of (aborts_checkpoint w a) = some w
work_of _ = none

module _ {S : Type 0} (p : Ports S) (s : Store S) (now : ℕ) where
  -- A call on work that the caller does not hold changes nothing and answers `lost`.
  pub run_without_work :
      (c : Call) (w : Work) → work_of c ≡ some w → work s now w ≡ none → run p s now c ≡ (s, lost)
  unfolding work_of run
  run_without_work (releases_repair w expected) v e h = ground arith
  run_without_work (checks w) v e h = ground arith
  run_without_work (asks_turn w) v e h = ground arith
  run_without_work (begins_turn w) v e h = ground arith
  run_without_work _ v e h = ground arith

  work_without_app :
      (w : Work) → app_alive s now w.fence.app_owner w.fence.app_epoch ≡ false → work s now w ≡ none
  unfolding work app_alive
  work_without_app w h = ground arith

  -- A call on work names the application lease of its fence.
  app_claim_of_work :
      (c : Call) (w : Work)
      → work_of c ≡ some w
      → app_claim c ≡ some (w.fence.app_owner, w.fence.app_epoch)
  unfolding work_of app_claim
  app_claim_of_work (releases_repair w expected) v e = ground arith
  app_claim_of_work _ v e = ground arith

  -- The other calls that rest on an application lease test it first.
  run_without_app_direct :
      (c : Call) (owner epoch : Text)
      → work_of c ≡ none
      → app_claim c ≡ some (owner, epoch)
      → app_alive s now owner epoch ≡ false
      → run p s now c ≡ (s, lost)
  unfolding work_of app_claim run
  run_without_app_direct (renews_app o k ms) owner epoch n e h = ground arith
  run_without_app_direct _ owner epoch n e h = ground arith

  -- A call that rests on an application lease which is not alive changes nothing and is lost.
  pub run_without_app :
      (c : Call) (owner epoch : Text)
      → app_claim c ≡ some (owner, epoch)
      → app_alive s now owner epoch ≡ false
      → run p s now c ≡ (s, lost)
  run_without_app c owner epoch e h = elim (Option-cases (work_of c)) [
    | inl direct ↦ run_without_app_direct c owner epoch direct e h
    | inr (w, held) ↦
        run_without_work c w held (work_without_app w (ground (arith, app_claim_of_work c w held)))
  ]
