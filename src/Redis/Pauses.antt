-- ===== src/Redis/Pauses.antt =====
-- redis/scripts.ts: a paused chat stays paused and `claim` grants nothing there, and an unresolved tool call
-- pauses its chat before the next event is leased.
use whats_app_mcp_server.Base.{
  ℕ, Bool, false, true, none, some, List, [], ◌∷◌, is_some, values, ◌≡◌, ◌⊎◌, arith,
}
use whats_app_mcp_server.Redis.Store.{Store, lost, paused, mutation_uncertain, app_alive, chat_busy}
use whats_app_mcp_server.Redis.Claim.{ClaimArgs, unresolved}
use whats_app_mcp_server.Redis.Script.{
  Ports, Call, init_chat, claims, aborts_checkpoint, run, run_all,
}

-- Every call but the abort of a checkpoint.
abbrev pub keeps_pause : Call → Bool
keeps_pause (aborts_checkpoint w a) = false
keeps_pause _ = true

abbrev pub AllKeepPause : List (ℕ × Call) → Type 0
AllKeepPause [] = Unit {0}
AllKeepPause ((now, c) ∷ cs) = (keeps_pause c ≡ true) × AllKeepPause cs

module _ {S : Type 0} (p : Ports S) where
  run-pause :
      (s : Store S) (now : ℕ) (c : Call)
      → keeps_pause c ≡ true
      → is_some s.state.pause ≡ true
      → is_some (run p s now c).0.state.pause ≡ true
  unfolding run
  run-pause s now (init_chat chat group) k h = ground arith
  run-pause s now _ k h = ground arith

  -- Only the abort of a checkpoint ends a pause.
  run_all-pause :
      (s : Store S) (cs : List (ℕ × Call))
      → AllKeepPause cs
      → is_some s.state.pause ≡ true
      → is_some (run_all p s cs).state.pause ≡ true
  unfolding run_all
  run_all-pause s [] k h = h
  run_all-pause s ((now, c) ∷ cs) k h =
      run_all-pause (run p s now c).0 cs k.1 (run-pause s now c k.0 h)

  claim_paused :
      (s : Store S) (now : ℕ) (a : ClaimArgs)
      → is_some s.state.pause ≡ true
      → (run p s now (claims a) ≡ (s, paused)) ⊎ (run p s now (claims a) ≡ (s, lost))
  unfolding run
  claim_paused s now a h = ground arith

  -- While nobody aborts a checkpoint, a paused chat stays paused, through any further calls at any
  -- times, and then `claim` changes nothing and answers `paused`, or `lost` to an application that is
  -- not the live one. (The calls that repair a compaction take a paused chat's lease; they are no
  -- claims of an event for a worker.)
  pub paused_claims_nothing :
      (s : Store S) (cs : List (ℕ × Call)) (now : ℕ) (a : ClaimArgs)
      → is_some s.state.pause ≡ true
      → AllKeepPause cs
      → let t = run_all p s cs in
        (is_some t.state.pause ≡ true)
        × ((run p t now (claims a) ≡ (t, paused)) ⊎ (run p t now (claims a) ≡ (t, lost)))
  paused_claims_nothing s cs now a h k =
      let still = run_all-pause s cs k h in (still, claim_paused (run_all p s cs) now a still)

  -- A tool call that is not confirmed stops the chat: to a live application with no work of its
  -- own there, `claim` grants nothing and leaves the chat paused as uncertain.
  pub unresolved_pauses :
      (s : Store S) (now : ℕ) (a : ClaimArgs)
      → app_alive s now a.app_owner a.app_epoch ≡ true
      → chat_busy s now a.app_owner a.app_epoch ≡ false
      → s.state.pause ≡ none
      → unresolved (values s.tools) ≡ true
      → let (t, reply) = run p s now (claims a) in
        (reply ≡ paused) × (t.state.pause ≡ some mutation_uncertain) × (t.lease ≡ s.lease)
  unfolding run
  unresolved_pauses s now a live idle free calls = ground arith
