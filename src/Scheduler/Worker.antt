-- ===== src/Scheduler/Worker.antt =====
-- `runChatWorker` and `createJournalTurns` of scheduler/chat-worker.ts.
use whats_app_mcp_server.Base.{
  ◌+◌, Bool, true, false, not, ◌&&◌, ◌||◌, Option, none, some, [], ◌==◌, if◌then◌else◌, is_some,
  Text, text_eq,
}
use whats_app_mcp_server.Domain.Errors.{
  ErrorClass, Result, ok, err, lease_lost, sequence_gap, session_failed, mutation_uncertain,
  usage_unknown, preparation_failed, checkpoint_invalid, compaction_capacity, compaction_failed,
  restore_failed,
}
use whats_app_mcp_server.Domain.Pauses.{PauseReason}
use whats_app_mcp_server.Domain.Pauses as Pauses
use whats_app_mcp_server.Domain.Fingerprint.{fingerprint_event}
use whats_app_mcp_server.Intake.Timestamp.{is_timestamp}
use whats_app_mcp_server.Scheduler.Work.{
  ClaimedWork, SessionBinding, is_bound, ChatView, Completion, turn, context_only, CompletionProof,
  TurnState, fresh, started, lost, OwnState, confirmed, uncertain, manual, is_marker_of,
}
use whats_app_mcp_server.Scheduler.Machine.{
  opened, began, prompted, appended, paused, State, Run, ◌>>=◌, ◌>>◌, done, throw, check, reads,
  modify, await,
}
use whats_app_mcp_server.Scheduler.Ownership.{
  Ports, when, when_found, when_recognised, pure, ask, act, is_current, current, complete_work,
}

module _ {W : Type 0} (p : Ports W) where
  -- A marker of the event exists: it must be the event's own, in the chat's session.
  unfoldable pub settle_existing : ChatView → Option CompletionProof → Run W (Unit {0})
  settle_existing state none = throw session_failed
  settle_existing state (some proof) = do
    work ← reads λ s. s.work
    fingerprint ← pure (fingerprint_event p.sha256 is_timestamp work.event)
    check
        (is_marker_of proof.marker work.event fingerprint
          && is_some state.session
          && is_bound state.session proof.session)
        session_failed
    complete_work p proof

  abbrev pub check_own : OwnState → Run W (Unit {0})
  check_own uncertain = throw mutation_uncertain
  check_own _ = done tt

  abbrev pub check_turn : TurnState → Run W (Unit {0})
  check_turn fresh = done tt
  check_turn started = throw mutation_uncertain
  check_turn lost = throw lease_lost

  -- `repository.ownMutation?.(…)`.
  abbrev pub ask_own : Option (W → Text → Text → W × Result OwnState) → Run W OwnState
  ask_own none = done manual
  ask_own (some f) = ask p λ s. f s.world s.work.event.chat_jid s.work.event.message_id

  -- `work.event.is_from_me ? await options.host.classifyOwn(…) : 'manual'`.
  abbrev pub ask_mine : Bool → Run W OwnState
  ask_mine true = await p.renewal when_recognised λ s.
      p.classify_own s.world s.work.event.canonical_chat_jid s.work.event.chat_jid
        s.work.event.message_id
  ask_mine false = done manual

  -- What is known of the message: no destination of an uncertain call, no turn that has begun, and
  -- for an own message what the journals say.
  unfoldable pub examine : Run W OwnState
  examine = do
    own ← ask_own p.own_mutation
    check_own own
    progress ← ask p λ s. p.turn_state s.world s.work
    check_turn progress
    mine ← reads λ s. s.work.event.is_from_me
    known ← ask_mine mine
    check_own known
    done known

  -- `options.host.attach?.(session, context)`.
  abbrev pub ask_attach :
      Option (W → SessionBinding → W × Result (Unit {0})) → SessionBinding → Run W (Unit {0})
  ask_attach none binding = done tt
  ask_attach (some f) binding = ask p λ s. f s.world binding

  -- The session is of the chat, and the one that the chat has, and is bound to it.
  unfoldable pub open_chat : ChatView → Run W SessionBinding
  open_chat state = do
    current p
    binding ← act p opened λ s. p.open_session s.world s.work state.session
    modify λ s. record s { session = some binding }
    current p
    chat ← reads λ s. s.work.event.canonical_chat_jid
    check
        (text_eq binding.canonical_chat_id chat
          && (not (is_some state.session) || is_bound state.session binding))
        session_failed
    bound ← ask p λ s. p.bind_session s.world s.work binding
    check bound session_failed
    current p
    ask_attach p.attach binding
    current p
    -- `createJournalTurns(…).attach`.
    current p
    done binding

  abbrev or_false : Option Bool → Bool
  or_false none = false
  or_false (some b) = b

  -- `createJournalTurns(…).run` with the prompt of `runChatWorker`. The journal's `run` calls the
  -- prompt once, so the guard against a second prompt is left out; where that `run` fails before the
  -- prompt, the failure is the answer of `p.prompt`.
  unfoldable pub run_prompt : SessionBinding → Run W (Unit {0})
  run_prompt binding = do
    current p
    current p
    act p prompted λ s. p.prompt s.world binding s.work.event (p.instructions s.work)
    current p

  abbrev pub because : PauseReason → Run W (Unit {0})
  because r = modify λ s. record s { reason = r }

  -- The turn: prepared, begun, and only then prompted.
  unfoldable pub take_turn : SessionBinding → Run W (Unit {0})
  take_turn binding = do
    because Pauses.preparation_failed
    deferred ← ask p λ s. p.prepare s.world binding
    current p
    begun ← await p.renewal (when began) λ s. p.begin_turn s.world s.work
    check begun mutation_uncertain
    because Pauses.mutation_uncertain
    run_prompt binding
    ask p λ s. p.after_prompt s.world binding (or_false deferred)

  abbrev completion_of : OwnState → Completion
  completion_of confirmed = context_only
  completion_of _ = turn

  unfoldable pub mark : OwnState → SessionBinding → Run W (Unit {0})
  mark own binding = do
    current p
    sends ← ask p λ s. p.confirmed_sends s.world
    current p
    work ← reads λ s. s.work
    fingerprint ← pure (fingerprint_event p.sha256 is_timestamp work.event)
    proof ← act p appended λ s. p.append_completion s.world binding (record {
      event_id = work.event.event_id;
      event_fingerprint = fingerprint;
      canonical_chat_id = work.event.canonical_chat_jid;
      chat_sequence = work.event.chat_sequence;
      completion = completion_of own;
      completed_at = p.time_text s.world;
      confirmed_sends = sends;
    })
    complete_work p proof

  abbrev pub turn_unless_known : OwnState → SessionBinding → Run W (Unit {0})
  turn_unless_known confirmed binding = done tt
  turn_unless_known _ binding = take_turn binding

  -- The event's own turn, unless its message is a confirmed call of the session's tools.
  unfoldable pub go_on : ChatView → OwnState → Run W (Unit {0})
  go_on state own = do binding ← open_chat state; turn_unless_known own binding; mark own binding

  unfoldable pub serve : ChatView → Run W (Unit {0})
  serve state = do own ← examine; go_on state own

  abbrev pub settle_or_serve : ChatView → Option (Option CompletionProof) → Run W (Unit {0})
  settle_or_serve state none = serve state
  settle_or_serve state (some document) = settle_existing state document

  -- The body of the `try`.
  unfoldable pub attempt : Run W (Unit {0})
  attempt = do
    current p
    state ← ask p λ s. p.read_chat s.world s.work.event.canonical_chat_jid
    sequence ← reads λ s. s.work.event.chat_sequence
    check (state.last_completed + 1 == sequence && not (is_some state.pause)) sequence_gap
    existing ←
        await p.renewal when_found
          λ s. p.find_event s.world s.work.event.canonical_chat_jid s.work.event.event_id
    settle_or_serve state existing

-- The classes that are reasons of a pause.
unfoldable pub reason_of : ErrorClass → PauseReason → PauseReason
reason_of lease_lost r = Pauses.lease_lost
reason_of sequence_gap r = Pauses.sequence_gap
reason_of session_failed r = Pauses.session_failed
reason_of mutation_uncertain r = Pauses.mutation_uncertain
reason_of usage_unknown r = Pauses.usage_unknown
reason_of preparation_failed r = Pauses.preparation_failed
reason_of checkpoint_invalid r = Pauses.checkpoint_invalid
reason_of compaction_capacity r = Pauses.compaction_capacity
reason_of compaction_failed r = Pauses.compaction_failed
reason_of restore_failed r = Pauses.restore_failed
reason_of _ r = r

module _ {W : Type 0} (p : Ports W) where
  abbrev pub pausing : Run W Bool
  pausing = do current p; act p paused λ t. p.pause t.world t.work t.reason

  -- The `catch`: a worker that may still own the work pauses the chat.
  unfoldable pub abandon : ErrorClass → State W → State W
  abandon e s0 =
      let s = record s0 { reason = reason_of e s0.reason } in
      if is_current p s
      then (let (t, answer) = pausing s in
          elim answer [ ok _ ↦ t | err _ ↦ record t { lost = true } ])
      else s

  -- The `finally`, whose failure is only reported.
  abbrev pub close : State W → State W
  close s = elim s.session [
    | none ↦ s
    | some binding ↦ (ask p (λ t. p.dispose t.world binding) s).0
  ]

  -- What a worker starts from.
  abbrev pub initial : W → ClaimedWork → State W
  initial w work = record {
    world = w;
    work = work;
    lost = false;
    session = none;
    reason = Pauses.session_failed;
    trace = [];
  }

  -- All but the `finally`.
  unfoldable pub work_off : State W → State W
  work_off s = let (t, r) = attempt p s in elim r [ ok _ ↦ t | err e ↦ abandon e t ]

  unfoldable pub run_chat_worker : W → ClaimedWork → State W
  run_chat_worker w work = close (work_off (initial w work))
