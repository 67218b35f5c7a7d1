-- ===== src/Journal/Sends.antt =====
-- `confirmed` and `classifyOwn` of pi/tool-journal-extension.ts.
use whats_app_mcp_server.Base.{
  ℕ, Bool, not, ◌&&◌, Option, none, some, List, [], ◌∷◌, if◌then◌else◌, any, Text, text_eq,
}
use whats_app_mcp_server.Domain.Errors.{Result, ok, err}
use whats_app_mcp_server.Domain.Mutations.{MutationState, message_of}
use whats_app_mcp_server.Scheduler.Work.{Send, OwnState, confirmed, uncertain}
use whats_app_mcp_server.Journal.Live.{Awaited, Act, ◌>>=◌, ◌>>◌, give, ensure, await_call}
use whats_app_mcp_server.Journal.Turn.{is_settled_of}

-- The sends of the records, each once, where it is first.
unfoldable pub equal_send : Send → Send → Bool
equal_send a b = text_eq a.destination b.destination && text_eq a.message_id b.message_id

unfoldable without_send : Send → List Send → List Send
unfolding equal_send
without_send s [] = []
without_send s (t ∷ ts) = let rest = without_send s ts in if equal_send s t then rest else t ∷ rest

abbrev send_to : Text → Text → Send
send_to to m = record { destination = to; message_id = m }

abbrev add_send : Option Text → Text → List Send → List Send
unfolding without_send
add_send none to sends = sends
add_send (some m) to sends = send_to to m ∷ without_send (send_to to m) sends

unfoldable pub confirmed_of : List MutationState → List Send
unfolding equal_send without_send
confirmed_of [] = []
confirmed_of (s ∷ rest) = add_send (message_of s.progress) s.destination (confirmed_of rest)

module _ (answers : ℕ → Awaited) where
  -- `confirmed`, for the work's event: the sends, each once.
  unfoldable pub confirmed_sends : Text → Act (List Send)
  unfolding ensure give await_call confirmed_of
  confirmed_sends event = do
    a ← await_call answers
    b ← await_call answers
    ensure (not (any (λ s. not (is_settled_of event s)) b.journal))
    give (some (confirmed_of b.journal))

-- `ownMutation`.
pub data Own : Type 0 where
  own_confirmed own_uncertain own_none : Own

abbrev if_confirmed : OwnState → OwnState
if_confirmed confirmed = confirmed
if_confirmed _ = uncertain

-- The end of `classifyOwn`, when the first and the second answer are known.
abbrev end_of : Own → OwnState → Own → Result OwnState → Result OwnState
end_of first known own_uncertain hook-Tied = ok uncertain
end_of first known own_confirmed hook-Tied = ok confirmed
end_of first confirmed own_none hook-Tied = ok confirmed
end_of own_confirmed known own_none (ok r) = ok (if_confirmed r)
end_of own_confirmed known own_none (err e) = err e
end_of first known own_none hook-Tied = ok known

-- An uncertain index ends the classification, without the second question.
abbrev with_index : Own → Result OwnState → Result Own → Result OwnState → Result OwnState
with_index first (err e) again hook-Tied = err e
with_index first (ok uncertain) again hook-Tied = ok uncertain
with_index first (ok known) (err e) hook-Tied = err e
with_index first (ok known) (ok last) hook-Tied = end_of first known last hook-Tied

-- `classifyOwn`, of what `ownMutation` and `fallback` answer the first time and the second.
unfoldable pub classify_own :
    Result Own → Result OwnState → Result Own → Result OwnState → Result OwnState
classify_own (err e) indexed again hook-Tied = err e
classify_own (ok own_uncertain) indexed again hook-Tied = ok uncertain
classify_own (ok first) indexed again hook-Tied = with_index first indexed again hook-Tied
