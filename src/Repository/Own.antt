-- ===== src/Repository/Own.antt =====
-- `ownMutation` of redis/repository.ts: whether a message is a send of the sessions' own tools.
use whats_app_mcp_server.Base.{
  Bool, true, false, not, ◌&&◌, Option, none, some, List, [], ◌∷◌, if◌then◌else◌, is_some, Text,
  text, text_eq, holds,
}
use whats_app_mcp_server.Json.{Json, object, at}
use whats_app_mcp_server.Domain.Errors.{
  ErrorClass, Result, ok, err, ◌>>=◌, ◌>>◌, require, store_unavailable, session_failed,
  mutation_uncertain,
}
use whats_app_mcp_server.Domain.Patterns.{is_chat_jid}
use whats_app_mcp_server.Domain.Schemas.{binding_of, is_message_id}
use whats_app_mcp_server.Domain.Mutations.{
  MutationState, JournalRecord, mutation_state_of, journal_record_of, is_confirmed, message_of,
}
use whats_app_mcp_server.Scheduler.Work.{SessionBinding, same_binding}
use whats_app_mcp_server.Journal.Sends.{Own, own_confirmed, own_uncertain, own_none}

-- What the script answers of a chat: the text of its session, and its journal.
pub record OwnView : Type 0 where
  pub session : Result (Option Text)
  pub journal : Result (List Text)

-- `checked`.
abbrev pub checked : {A : Type 0} → ErrorClass → Option A → Result A
checked e none = err e
checked e (some a) = ok a

-- `value && typeof value === 'object' && 'state' in value`.
abbrev pub is_enveloped : Json → Bool
is_enveloped (object ms) = is_some (at (text "state") ms)
is_enveloped _ = false

-- `parse` is `JSON.parse`.
module _ (parse : Text → Option Json) where
  -- `journalRecord` and `journalState`.
  unfoldable pub stored_record : Text → Text → Result JournalRecord
  unfolding text_eq
  stored_record raw chat = do
    v ← checked store_unavailable (parse raw)
    r ← checked mutation_uncertain (journal_record_of (some v))
    require (text_eq r.session.canonical_chat_id chat && text_eq r.state.canonical_chat_id chat)
        mutation_uncertain
    ok r

  unfoldable pub stored_state : Text → Text → Result MutationState
  unfolding stored_record
  stored_state raw chat = do
    v ← checked store_unavailable (parse raw)
    (if is_enveloped v
        then (do r ← stored_record raw chat; ok r.state)
        else checked mutation_uncertain (mutation_state_of (some v)))

  -- The session that a record has to be of.
  abbrev pub of_session : Option Text → SessionBinding → Result (Unit {0})
  of_session none b = err mutation_uncertain
  of_session (some raw) b = do
    v ← checked store_unavailable (parse raw)
    s ← checked session_failed (binding_of (some v))
    require (same_binding b s) mutation_uncertain

  module _ (actual id : Text) where
    -- A record of the destination: none is uncertain, else whether the message is confirmed.
    abbrev pub weigh : Bool → MutationState → Option Bool
    weigh found s =
        if not (text_eq s.destination actual)
        then some found
        else if not (is_confirmed s.progress)
        then none
        else if holds (message_of s.progress) id
        then some true
        else some found

    unfoldable pub review : Text → Option Text → Bool → Text → Result (Option Bool)
    unfolding stored_record stored_state
    review chat session found raw = do
      v ← checked store_unavailable (parse raw)
      (if is_enveloped v
          then (do
            r ← stored_record raw chat
            of_session session r.session
            ok (weigh found r.state))
          else (do
            s ← stored_state raw chat
            ok (if text_eq s.destination actual then none else some found)))

    unfoldable pub review_journal : Text → Option Text → Bool → List Text → Result (Option Bool)
    unfolding review
    review_journal chat session found [] = ok (some found)
    review_journal chat session found (raw ∷ raws) = review chat session found raw >>= λ o. elim o [
      | none ↦ ok none
      | some b ↦ review_journal chat session b raws
    ]

    unfoldable pub review_chats : (Text → OwnView) → Bool → List Text → Result (Option Bool)
    unfolding review_journal
    review_chats view found [] = ok (some found)
    review_chats view found (chat ∷ chats) = (view chat).session >>= λ session.
        (view chat).journal >>= λ raws. review_journal chat session found raws >>= λ o. elim o [
          | none ↦ ok none
          | some b ↦ review_chats view b chats
        ]

    abbrev pub own_of : Option Bool → Own
    own_of none = own_uncertain
    own_of (some true) = own_confirmed
    own_of (some false) = own_none

    -- `ownMutation`.
    unfoldable pub own_mutation : (Text → OwnView) → List Text → Result Own
    unfolding review_chats
    own_mutation view chats = do
      require (is_chat_jid actual && is_message_id id) mutation_uncertain
      o ← review_chats view false chats
      ok (own_of o)
