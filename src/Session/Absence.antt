-- ===== src/Session/Absence.antt =====
-- pi/completion-index.ts: a miss of `findEvent`, and a message that `classifyOwn` calls manual.
use whats_app_mcp_server.Base.{
  ◌≡◌, refl, arith, Bool, true, false, ◌&&◌, Option, none, some, List, [], ◌∷◌, if◌then◌else◌, any,
  Text, text_eq,
}
use whats_app_mcp_server.Base.Each.{Each}
use whats_app_mcp_server.Base.Members.{Has}
use whats_app_mcp_server.Json.Inversion.{none-some, some-injective}
use whats_app_mcp_server.Domain.Schemas.{has_send}
use whats_app_mcp_server.Intake.Payload.{includes}
use whats_app_mcp_server.Scheduler.Work.{CompletionProof, Send, OwnState, confirmed, manual}
use whats_app_mcp_server.Session.Index.{Index, Row, is_snapshot, canonical_chats}
use whats_app_mcp_server.Session.Lookup.{
  rebuild, rebuild_checked, Outside, all_proofs, found_in, find_proof, find_event, some_sent,
  classify_own, classify_first, classified,
}
use whats_app_mcp_server.Session.Counting.{OfChat, snapshot_complete}
use whats_app_mcp_server.Session.Serving.{CacheHolds, ReadingsHold}
use whats_app_mcp_server.Session.Misses.{Clean, rebuild-Clean}

-- The proof is of the event in the chat; one of its sends is this one.
abbrev pub is_of : Text → Text → CompletionProof → Bool
is_of chat id p = text_eq p.marker.canonical_chat_id chat && text_eq p.marker.event_id id

abbrev pub sent : Send → CompletionProof → Bool
sent s p = has_send p.marker.confirmed_sends s

find_proof-none :
    (chat id : Text) (ps : List CompletionProof)
    → find_proof chat id ps ≡ none
    → any (is_of chat id) ps ≡ false
unfolding find_proof
find_proof-none chat id [] h = refl
find_proof-none chat id (p ∷ ps) h = ground (arith, find_proof-none chat id ps)

if_manual : (c : Bool) → (if c then confirmed else manual) ≡ manual → c ≡ false
if_manual c h = ground arith

module _ (R : Text → List CompletionProof → Type 0) (o : Outside) (x : Index) where
  -- Every configured chat has a row, whose session, if there is one, is of the chat, and clean; and
  -- there is no row of another chat.
  abbrev pub AllClean : (CompletionProof → Bool) → Type 0
  AllClean P =
      (rows : List Row) × (o.rows ≡ some rows)
      × Each
          (λ chat.
            (r : Row) × Has r rows
            × (r.chat ≡ chat)
            × (OfChat r.chat r.binding × Clean R P x r.binding))
          (canonical_chats o.policy)
      × Each (λ r. Has r.chat (canonical_chats o.policy)) rows

  module _ (cached : CacheHolds R x) (read : ReadingsHold R o.looks)
      (P : CompletionProof → Bool) where
    with_snapshot :
        (c : Bool) (rows : List Row) (out : List CompletionProof)
        → o.rows ≡ some rows
        → is_snapshot o.on_path (canonical_chats o.policy) rows ≡ c
        → (if c then rebuild o.looks rows x else (x, none)).1 ≡ some out
        → any P out ≡ false
        → AllClean P
    with_snapshot true rows out e c h g =
        let (every, only) =
          snapshot_complete (λ r. Clean R P x r.binding) o.on_path (canonical_chats o.policy) rows c
            (rebuild-Clean R P o.looks read rows x out cached h g) in
        (rows, e, every, only)
    with_snapshot false rows out e c h g = absurd (none-some h)

    checked-AllClean :
        (rows : Option (List Row)) (out : List CompletionProof)
        → o.rows ≡ rows
        → (rebuild_checked o x rows).1 ≡ some out
        → any P out ≡ false
        → AllClean P
    checked-AllClean none out e h g = absurd (none-some h)
    checked-AllClean (some rows) out e h g =
        with_snapshot (is_snapshot o.on_path (canonical_chats o.policy) rows) rows out e refl h g

    all_proofs-AllClean :
        (out : List CompletionProof)
        → (all_proofs o x).1 ≡ some out
        → any P out ≡ false
        → AllClean P
    unfolding all_proofs
    all_proofs-AllClean out = checked-AllClean o.rows out refl

  missed :
      (chat id : Text) (r : Option (List CompletionProof))
      → found_in chat id r ≡ some none
      → (out : List CompletionProof) × (r ≡ some out) × (any (is_of chat id) out ≡ false)
  missed chat id none h = absurd (none-some h)
  missed chat id (some out) h = (out, refl, find_proof-none chat id out (some-injective h))

  looked_up :
      (c : Bool) (chat id : Text) (z : Index × Option (List CompletionProof))
      → (if◌then◌else◌ {A = Index × Option (Option CompletionProof)} c
          (z.0, found_in chat id z.1)
          (x, none)).1
        ≡ some none
      → found_in chat id z.1 ≡ some none
  looked_up true chat id z h = h
  looked_up false chat id z h = absurd (none-some h)

  -- If `findEvent` finds nothing, then the mapping had a row of every configured chat and of no other,
  -- and the session of each of them was of the chat, neither reserved nor poisoned, and has no proof
  -- of the event: a file that the host is writing, or that could not be read, is never taken for a
  -- miss. `R` is any property that the cached proofs and all readings have; so have the proofs in
  -- question.
  pub find_event-AllClean :
      (chat id : Text)
      → CacheHolds R x
      → ReadingsHold R o.looks
      → (find_event o chat id x).1 ≡ some none
      → AllClean (is_of chat id)
  unfolding find_event
  find_event-AllClean chat id cached read h =
      let (out, e, g) =
        missed chat id (all_proofs o x).1
          (looked_up (includes (canonical_chats o.policy) chat) chat id (all_proofs o x) h) in
      all_proofs-AllClean cached read (is_of chat id) out e g

  settled_manual :
      (s : Send) (r : Option (List CompletionProof)) (last : Option Bool)
      → classified s r last ≡ some manual
      → (out : List CompletionProof) × (r ≡ some out)
        × (any (sent s) out ≡ false)
        × (last ≡ some false)
  unfolding some_sent
  settled_manual s none last h = absurd (none-some h)
  settled_manual s (some out) none h = absurd (none-some h)
  settled_manual s (some out) (some true) h = absurd (ground (arith, some-injective h))
  settled_manual s (some out) (some false) h =
      (out, refl, if_manual (any (sent s) out) (some-injective h), refl)

  first_manual :
      (s : Send) (before after : Option Bool)
      → (classify_first o s before after x).1 ≡ some manual
      → (before ≡ some false) × (classified s (all_proofs o x).1 after ≡ some manual)
  first_manual s none after h = absurd (none-some h)
  first_manual s (some true) after h = absurd (ground (arith, some-injective h))
  first_manual s (some false) after h = (refl, h)

  routed :
      (c : Bool) (z : Index × Option OwnState)
      → (if c then z else (x, none)).1 ≡ some manual
      → z.1 ≡ some manual
  routed true z h = h
  routed false z h = absurd (none-some h)

  -- If `classifyOwn` takes a message for one that a person has sent, then the journal had nothing
  -- unresolved for it before and after the lookup, and the mapping had a row of every configured chat
  -- and of no other, whose sessions were of their chats, neither reserved nor poisoned, and have no
  -- confirmed send of it.
  pub classify_own-AllClean :
      (chat : Text) (s : Send) (before after : Option Bool)
      → CacheHolds R x
      → ReadingsHold R o.looks
      → (classify_own o chat s before after x).1 ≡ some manual
      → (before ≡ some false) × (after ≡ some false) × AllClean (sent s)
  unfolding classify_own
  classify_own-AllClean chat s before after cached read h =
      let (b, k) = first_manual s before after (routed _ (classify_first o s before after x) h) in
      let (out, e, g, a) = settled_manual s (all_proofs o x).1 after k in
      (b, a, all_proofs-AllClean cached read (sent s) out e g)
