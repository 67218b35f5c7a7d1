-- ===== src/Redis/Completion.antt =====
-- redis/scripts.ts, `complete` and `begin-turn`: an event is completed once, and prompted once.
use whats_app_mcp_server.Base.{
  ℕ, Bool, false, true, none, some, List, [], ◌∷◌, Text, holds_iff, is_some, all, values, ◌≡◌, ◌⊎◌,
  refl, arith,
}
use whats_app_mcp_server.Redis.Store.{Store, ok, lost, started, Work, work, ToolRecord}
use whats_app_mcp_server.Redis.Claim.{unresolved}
use whats_app_mcp_server.Redis.Turn.{Sent, settled}
use whats_app_mcp_server.Redis.Fencing.{work_of, run_without_work}
use whats_app_mcp_server.Redis.Script.{Ports, Call, init_chat, completes, begins_turn, run, run_all}

-- Every call but a completion.
abbrev pub keeps_turn : Call → Bool
keeps_turn (completes w session group sends) = false
keeps_turn _ = true

abbrev pub AllKeepTurn : List (ℕ × Call) → Type 0
AllKeepTurn [] = Unit {0}
AllKeepTurn ((now, c) ∷ cs) = (keeps_turn c ≡ true) × AllKeepTurn cs

settled-resolved :
    (w : Work) (sends : List Sent) (rs : List ToolRecord)
    → all (settled w sends) rs ≡ true
    → unresolved rs ≡ false
unfolding settled unresolved
settled-resolved w sends [] h = refl
settled-resolved w sends (r ∷ rs) h = ground (arith, settled-resolved w sends rs)

module _ {S : Type 0} (p : Ports S) where
  work_without_owner :
      (s : Store S) (now : ℕ) (w : Work) → s.lease.owner ≡ none → work s now w ≡ none
  unfolding work
  work_without_owner s now w h = ground arith

  completes_ok :
      (s t : Store S) (now : ℕ) (w : Work) (session group : Text) (sends : List Sent)
      → run p s now (completes w session group sends) ≡ (t, ok)
      → (t.lease.owner ≡ none)
        × (all (settled w sends) (values s.tools) ≡ true)
        × (t.tools ≡ [])
        × (t.state.turn_event ≡ none)
        × (s.state.session ≡ some session)
  unfolding run
  completes_ok s t now w session group sends r = ground (arith, holds_iff s.state.session session)

  -- Once work is completed, the journal is empty, no turn is open, and every call on any work of
  -- the chat is refused and changes nothing, a second completion with it.
  pub completed_once :
      (s t : Store S) (now later : ℕ) (w v : Work) (session group : Text) (sends : List Sent)
      (c : Call)
      → run p s now (completes w session group sends) ≡ (t, ok)
      → work_of c ≡ some v
      → (t.tools ≡ []) × (t.state.turn_event ≡ none) × (run p t later c ≡ (t, lost))
  completed_once s t now later w v session group sends c r e =
      let (owner, _, tools, turn, _) = completes_ok s t now w session group sends r in
      (tools, turn, run_without_work p t later c v e (work_without_owner t later v owner))

  -- A tool call that is not confirmed keeps its event from being completed: the store does not
  -- change, whatever sends the marker claims.
  pub unresolved_never_completes :
      (s : Store S) (now : ℕ) (w : Work) (session group : Text) (sends : List Sent)
      → unresolved (values s.tools) ≡ true
      → run p s now (completes w session group sends) ≡ (s, lost)
  unfolding run
  unresolved_never_completes s now w session group sends h =
      ground (arith, settled-resolved w sends (values s.tools))

  run-turn :
      (s : Store S) (now : ℕ) (c : Call)
      → keeps_turn c ≡ true
      → is_some s.state.turn_event ≡ true
      → is_some (run p s now c).0.state.turn_event ≡ true
  unfolding run
  run-turn s now (init_chat chat group) k h = ground arith
  run-turn s now _ k h = ground arith

  run_all-turn :
      (s : Store S) (cs : List (ℕ × Call))
      → AllKeepTurn cs
      → is_some s.state.turn_event ≡ true
      → is_some (run_all p s cs).state.turn_event ≡ true
  unfolding run_all
  run_all-turn s [] k h = h
  run_all-turn s ((now, c) ∷ cs) k h =
      run_all-turn (run p s now c).0 cs k.1 (run-turn s now c k.0 h)

  begins_turn_ok :
      (s t : Store S) (now : ℕ) (w : Work)
      → run p s now (begins_turn w) ≡ (t, ok)
      → is_some t.state.turn_event ≡ true
  unfolding run
  begins_turn_ok s t now w r = ground arith

  begins_turn_again :
      (s : Store S) (now : ℕ) (w : Work)
      → is_some s.state.turn_event ≡ true
      → (run p s now (begins_turn w) ≡ (s, started)) ⊎ (run p s now (begins_turn w) ≡ (s, lost))
  unfolding run
  begins_turn_again s now w h = ground arith

  -- After a turn has begun, and until a completion, no turn of the chat begins again: the call
  -- changes nothing and answers `started` or `lost`, after any other calls by anybody.
  pub turn_begins_once :
      (s t : Store S) (now later : ℕ) (w v : Work) (cs : List (ℕ × Call))
      → run p s now (begins_turn w) ≡ (t, ok)
      → AllKeepTurn cs
      → let u = run_all p t cs in
        (run p u later (begins_turn v) ≡ (u, started)) ⊎ (run p u later (begins_turn v) ≡ (u, lost))
  turn_begins_once s t now later w v cs r k =
      begins_turn_again (run_all p t cs) later v (run_all-turn t cs k (begins_turn_ok s t now w r))
