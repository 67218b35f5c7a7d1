-- ===== src/Session/Lookup.antt =====
-- `rebuild`, `findEvent` and `classifyOwn` of pi/completion-index.ts.
use whats_app_mcp_server.Base.{
  any, Bool, true, false, not, ◌&&◌, Option, none, some, List, [], ◌∷◌, ◌++◌, if◌then◌else◌,
  is_empty, Text, text_eq,
}
use whats_app_mcp_server.Domain.Schemas.{has_send}
use whats_app_mcp_server.Intake.Payload.{includes, first, AdmissionPolicy}
use whats_app_mcp_server.Scheduler.Work.{
  SessionBinding, CompletionProof, OwnState, confirmed, uncertain, manual, Send,
}
use whats_app_mcp_server.Session.Index.{
  Index, Looks, Row, canonical_chats, is_snapshot, file_evidence,
}

-- The events of the proofs, added to those seen; none if one is there already.
unfoldable pub note_events : List Text → List CompletionProof → Option (List Text)
note_events seen [] = some seen
note_events seen (p ∷ ps) =
    if includes seen p.marker.event_id then none else note_events (p.marker.event_id ∷ seen) ps

-- The loop over the rows, with the variables `ids` and `all`. `looks` is what is seen of each file,
-- and `next` is the rest of the loop.
abbrev pub RowLoop : Type 0
RowLoop = List Text → List CompletionProof → Index → Index × Option (List CompletionProof)

abbrev pub with_events :
    RowLoop
    → List CompletionProof
    → Index
    → List CompletionProof
    → Option (List Text)
    → Index × Option (List CompletionProof)
with_events next all y ps none = (y, none)
with_events next all y ps (some seen) = next seen (all ++ ps) y

abbrev pub with_evidence :
    RowLoop
    → List Text
    → List CompletionProof
    → Index × Option (List CompletionProof)
    → Index × Option (List CompletionProof)
with_evidence next ids all (y, none) = (y, none)
with_evidence next ids all (y, some ps) = with_events next all y ps (note_events ids ps)

module _ (looks : SessionBinding → Looks) where
  abbrev pub with_file :
      RowLoop
      → List Text
      → List CompletionProof
      → Index
      → SessionBinding
      → Bool
      → Index × Option (List CompletionProof)
  with_file next ids all x b true = (x, none)
  with_file next ids all x b false = with_evidence next ids all (file_evidence b (looks b) x)

  abbrev pub with_session :
      RowLoop
      → List Text
      → List CompletionProof
      → Index
      → Option SessionBinding
      → Index × Option (List CompletionProof)
  with_session next ids all x none = next ids all x
  with_session next ids all x (some b) =
      with_file next ids all x b (includes x.pending b.session_file)

  unfoldable pub rebuild_from : List Row → RowLoop
  rebuild_from [] ids all x = (x, some all)
  rebuild_from (r ∷ rs) ids all x = with_session (rebuild_from rs) ids all x r.binding

unfoldable pub rebuild :
    (SessionBinding → Looks) → List Row → Index → Index × Option (List CompletionProof)
unfolding rebuild_from
rebuild looks rows x = rebuild_from looks rows [] [] x

-- `find` with the predicate of `findEvent`.
unfoldable pub find_proof : Text → Text → List CompletionProof → Option CompletionProof
find_proof chat id [] = none
find_proof chat id (p ∷ ps) =
    if text_eq p.marker.canonical_chat_id chat && text_eq p.marker.event_id id
    then some p
    else find_proof chat id ps

unfoldable pub some_sent : Send → List CompletionProof → Bool
some_sent s ps = any (λ p. has_send p.marker.confirmed_sends s) ps

-- What a lookup is given: the policy, the paths below the root, the rows of the mapping (none throws)
-- and what is seen of the files.
pub record Outside : Type 0 where
  pub policy : AdmissionPolicy
  pub on_path : SessionBinding → Bool
  pub rows : Option (List Row)
  pub looks : SessionBinding → Looks

-- `snapshot`, then `rebuild` in the file-only interval, when the index is `x`.
abbrev pub rebuild_checked :
    Outside → Index → Option (List Row) → Index × Option (List CompletionProof)
rebuild_checked o x none = (x, none)
rebuild_checked o x (some rows) =
    if is_snapshot o.on_path (canonical_chats o.policy) rows
    then rebuild o.looks rows x
    else (x, none)

unfoldable pub all_proofs : Outside → Index → Index × Option (List CompletionProof)
all_proofs o x = rebuild_checked o x o.rows

abbrev pub found_in : Text → Text → Option (List CompletionProof) → Option (Option CompletionProof)
found_in chat id none = none
found_in chat id (some ps) = some (find_proof chat id ps)

-- `findEvent`: an exception is none, a miss `some none`.
unfoldable pub find_event : Outside → Text → Text → Index → Index × Option (Option CompletionProof)
find_event o chat id x =
    if includes (canonical_chats o.policy) chat
    then (let (y, r) = all_proofs o x in (y, found_in chat id r))
    else (x, none)

-- `operatorJids.includes(actualChat) ? operatorJids[0] : actualChat`.
unfoldable pub route : AdmissionPolicy → Text → Option Text
route policy actual =
    if includes policy.operator_jids actual then first policy.operator_jids else some actual

abbrev pub classified : Send → Option (List CompletionProof) → Option Bool → Option OwnState
classified s none last = none
classified s (some ps) none = none
classified s (some ps) (some true) = some uncertain
classified s (some ps) (some false) = some (if some_sent s ps then confirmed else manual)

abbrev pub is_route : Option Text → Text → Bool
is_route none chat = false
is_route (some r) chat = text_eq r chat

abbrev pub classify_first :
    Outside → Send → Option Bool → Option Bool → Index → Index × Option OwnState
classify_first o s none last x = (x, none)
classify_first o s (some true) last x = (x, some uncertain)
classify_first o s (some false) last x = let (y, r) = all_proofs o x in (y, classified s r last)

-- `classifyOwn`: the journal is asked before and after; its answers may be exceptions.
unfoldable pub classify_own :
    Outside → Text → Send → Option Bool → Option Bool → Index → Index × Option OwnState
classify_own o chat s before after x =
    if is_route (route o.policy s.destination) chat
      && includes (canonical_chats o.policy) chat
      && not (is_empty s.message_id)
    then classify_first o s before after x
    else (x, none)
