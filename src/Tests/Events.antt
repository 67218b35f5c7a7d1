-- ===== src/Tests/Events.antt =====
-- The way of one event: accepted, leased, prompted, completed.
use whats_app_mcp_server.Base.{
  true, is_some, ℕ, ◌+◌, ◌≡◌, ◌⊎◌, inl, inr, refl, none, some, [], ◌∷◌, Text, text, text_eq_iff,
  lookup, arith,
}
use whats_app_mcp_server.Redis.Decimal.{value, IsNumeral}
use whats_app_mcp_server.Redis.Store.{
  Store, Event, Work, ToolRecord, legacy, attempting, lost, started, paused, conflict, or_zero,
  mutation_uncertain,
}
use whats_app_mcp_server.Redis.Intake.{AcceptArgs}
use whats_app_mcp_server.Redis.Script.{
  Call, run, run_all, accepts, claims, completes, begins_turn, checks, pauses, binds,
}
use whats_app_mcp_server.Redis.Sequences.{
  IsOrdered, run-IsOrdered, cursor_step, claim_in_order, completed_work,
}
use whats_app_mcp_server.Redis.Admission.{accept_changed}
use whats_app_mcp_server.Redis.Pauses.{paused_claims_nothing}
use whats_app_mcp_server.Redis.Completion.{completed_once, turn_begins_once}
use whats_app_mcp_server.Tests.Setup.{
  ports, nothing, owned, waiting, leased, held, accept_args, claim_args, evaluation,
}

nothing-IsOrdered : IsOrdered nothing
unfolding evaluation
nothing-IsOrdered = record {
  order = record {
    numeral = (inr refl, omega arith, omega arith, tt);
    listed = λ k e h. absurd (cc);
    ahead = λ k e h. absurd (cc);
    named = λ q k h. absurd (cc);
  };
}

one_IsNumeral : IsNumeral (text "1")
one_IsNumeral = (inl (omega arith), omega arith, omega arith, tt)

owned-IsOrdered : IsOrdered owned
owned-IsOrdered =
    run-IsOrdered ports _ 10 (run-IsOrdered ports nothing 0 nothing-IsOrdered _ tt) _ tt

run-IsOrdered_example : IsOrdered waiting
run-IsOrdered_example =
    run-IsOrdered ports owned 11 owned-IsOrdered (accepts accept_args) one_IsNumeral

waiting-IsOrdered : IsOrdered waiting
waiting-IsOrdered = run-IsOrdered ports owned 11 owned-IsOrdered (accepts accept_args) one_IsNumeral

leased-IsOrdered : IsOrdered leased
leased-IsOrdered = run-IsOrdered ports waiting 12 waiting-IsOrdered (claims claim_args) tt

abbrev bound : Store ℕ
bound = (run ports leased 20 (binds held (text "S"))).0

abbrev finished : Store ℕ
finished = (run ports bound 30 (completes held (text "S") (text "g") [])).0

abbrev completion : Call
completion = completes held (text "S") (text "g") []

bound-IsOrdered : IsOrdered bound
bound-IsOrdered = run-IsOrdered ports leased 20 leased-IsOrdered (binds held (text "S")) tt

completion_runs : (finished.state.cursor ≡ some (text "1")) × (finished.events ≡ [])
unfolding evaluation
completion_runs = (refl, refl)

cursor_step_example :
    (or_zero finished.state.cursor ≡ or_zero bound.state.cursor)
    ⊎ ((w : Work) × (e : Event) × (completed_work completion ≡ some w)
        × (lookup w.event bound.events ≡ some e)
        × (finished.state.cursor ≡ some e.seq)
        × (value e.seq ≡ value (or_zero bound.state.cursor) + 1)
        × (lookup w.event finished.events ≡ none))
cursor_step_example = cursor_step ports bound 30 bound-IsOrdered completion

claim_in_order_example :
    (k : Text) × (e : Event) × (lookup k waiting.events ≡ some e)
    × (value e.seq ≡ value (or_zero waiting.state.cursor) + 1)
    × (text "1-0" ≡ e.id)
    × (text "r1" ≡ e.raw)
    × (leased.lease.event ≡ some k)
    × (lookup k leased.events ≡ some e)
unfolding evaluation
claim_in_order_example =
    claim_in_order ports waiting 12 waiting-IsOrdered leased claim_args (text "1-0") (text "r1")
      (some (text "1")) 62 refl

abbrev changed_args : AcceptArgs
changed_args = record accept_args { fingerprint = text "h2" }

accept_changed_example : run ports waiting 13 (accepts changed_args) ≡ (waiting, conflict)
unfolding evaluation
accept_changed_example =
    accept_changed ports owned waiting 11 accept_args refl 13 changed_args refl refl
      (inl (refl, inl (ground (arith, text_eq_iff (text "h2") (text "h1")))))

abbrev paused_store : Store ℕ
paused_store = (run ports leased 20 (pauses held mutation_uncertain)).0

paused_claims_nothing_example :
    let t = run_all ports paused_store ((25, checks held) ∷ []) in
    (is_some t.state.pause ≡ true)
    × ((run ports t 80 (claims claim_args) ≡ (t, paused))
        ⊎ (run ports t 80 (claims claim_args) ≡ (t, lost)))
unfolding evaluation
paused_claims_nothing_example =
    paused_claims_nothing ports paused_store ((25, checks held) ∷ []) 80 claim_args refl (refl, tt)

-- A call of the journal that was left open.
abbrev open_call : ToolRecord
open_call = legacy (record {
  attempt_id = text "t1";
  event_id = text "e1";
  tool_call_id = text "u1";
  destination = text "c";
  status = attempting;
  message_id = none;
  finished_at = none;
})

abbrev unsettled : Store ℕ
unsettled = record waiting { tools = (text "t1", open_call) ∷ [] }

completed_once_example :
    (finished.tools ≡ [])
    × (finished.state.turn_event ≡ none)
    × (run ports finished 31 completion ≡ (finished, lost))
unfolding evaluation
completed_once_example =
    completed_once ports bound finished 30 31 held held (text "S") (text "g") [] completion refl
      refl

abbrev prompted : Store ℕ
prompted = (run ports bound 22 (begins_turn held)).0

turn_begins_once_example :
    let u = run_all ports prompted ((23, checks held) ∷ []) in
    (run ports u 24 (begins_turn held) ≡ (u, started))
    ⊎ (run ports u 24 (begins_turn held) ≡ (u, lost))
unfolding evaluation
turn_begins_once_example =
    turn_begins_once ports bound prompted 22 24 held held ((23, checks held) ∷ []) refl (refl, tt)
