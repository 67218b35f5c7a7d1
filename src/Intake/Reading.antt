-- ===== src/Intake/Reading.antt =====
-- intake/server.ts: the body of a request, and what it takes for an event to reach the store.
use whats_app_mcp_server.Base.{
  ℕ, ◌+◌, ◌≤◌, ◌<◌, ◌≡◌, ◌⊎◌, Bool, true, Option, some, List, [], ◌∷◌, ◌++◌, length, arith, inl,
  inr, Text, text, text_eq_iff, ltb, Bool-cases, if◌then◌else◌, length-append, ap, ◌∙◌,
}
use mathlib.Core.List.{append-nil, append_assoc}
use whats_app_mcp_server.Domain.Errors.{Result, ok, err, body_too_large}
use whats_app_mcp_server.Domain.Events.{Notification}
use whats_app_mcp_server.Intake.Body.{BodyEvent, chunk, finish, read_on, read_body}
use whats_app_mcp_server.Intake.Payload.{parse_payload}
use whats_app_mcp_server.Intake.Signature.{SignatureHeaders, verify}
use whats_app_mcp_server.Intake.Server.{
  HttpConfig, Request, Acceptance, Stage, reading, accepting, answered, Server, Gate, enter, begin,
  check_headers, body_read, check_body, stored, answer_of, status_of, Answer, Message, taken,
  duplicate, accepted, is_ready, single_header,
}

-- The chunks of a body, as events.
abbrev pub chunks_of : List (List ℕ) → List BodyEvent → List BodyEvent
chunks_of [] rest = rest
chunks_of (c ∷ cs) rest = chunk c ∷ chunks_of cs rest

abbrev pub concatenated : List (List ℕ) → List ℕ
concatenated [] = []
concatenated (c ∷ cs) = c ++ concatenated cs

read_on-chunks :
    (limit : ℕ) (before : List ℕ) (cs : List (List ℕ)) (rest : List BodyEvent)
    → length before ≤ limit
    → read_on limit before (chunks_of cs (finish ∷ rest)) ≡ (
        if ltb limit (length before + length (concatenated cs))
        then some (err body_too_large)
        else some (ok (before ++ concatenated cs)))
unfolding read_on
read_on-chunks limit before [] rest h = ground (arith, append-nil before)
read_on-chunks limit before (c ∷ cs) rest h =
    elim (Bool-cases (ltb limit (length before + length c))) [
      | inl over ↦ ground (arith, over, length-append c (concatenated cs))
      | inr within ↦ ground (
        arith,
        within,
        length-append c (concatenated cs),
        length-append before c,
        append_assoc before c (concatenated cs),
        read_on-chunks limit (before ++ c) cs rest (ground (arith, within, length-append before c)),
      )
    ]

-- However a body is cut into chunks, it is read whole if its length is within the limit, and is
-- refused as too large otherwise.
pub read_body-chunks :
    (limit : ℕ) (cs : List (List ℕ)) (rest : List BodyEvent)
    → read_body limit (chunks_of cs (finish ∷ rest)) ≡ (
        if ltb limit (length (concatenated cs))
        then some (err body_too_large)
        else some (ok (concatenated cs)))
unfolding read_body
read_body-chunks limit cs rest = ground (arith, read_on-chunks limit [] cs rest (omega arith))

module _ (http : HttpConfig) (g : Gate) (s t : Server) (up still : Bool) (now : ℕ)
    (r : Request) where
  enter_needs :
      (before : Server) (h : SignatureHeaders) (id : Text)
      → enter http up s r ≡ (before, reading h id)
      → (r.url ≡ http.webhook_path)
        × (r.method ≡ text "POST")
        × (is_ready s up ≡ true)
        × (s.active < http.max_inflight)
        × (single_header r.headers (text "x-webhook-timestamp") ≡ h.timestamp)
        × (single_header r.headers (text "x-webhook-signature-v2") ≡ h.signature)
        × (single_header r.headers (text "x-request-id") ≡ some id)
  unfolding enter begin check_headers
  enter_needs before h id begun =
      ground (arith, text_eq_iff r.url http.webhook_path, text_eq_iff r.method (text "POST"))

  body_needs :
      (after : Server) (h : SignatureHeaders) (id : Text) (bytes : List ℕ) (e : Notification)
      → body_read g t still now h id (ok bytes) ≡ (after, accepting e)
      → (is_ready t still ≡ true)
        × (id ≡ e.event_id)
        × (verify g.hmac g.verifier now bytes h ≡ ok tt)
        × (parse_payload g.decode bytes g.policy ≡ ok e)
  unfolding body_read check_body
  body_needs after h id bytes e passed = ground (arith, text_eq_iff id e.event_id)

  -- An event reaches the store only through a POST to the webhook's path, while the server was
  -- ready and had room, and is ready still; the body passes the signature check with the request's
  -- own headers, is a notification that the policy admits, and the request's id is the event's.
  pub accepting_needs :
      (before after : Server) (h : SignatureHeaders) (id : Text) (bytes : List ℕ) (e : Notification)
      → enter http up s r ≡ (before, reading h id)
      → body_read g t still now h id (ok bytes) ≡ (after, accepting e)
      → (r.url ≡ http.webhook_path)
        × (r.method ≡ text "POST")
        × (is_ready s up ≡ true)
        × (s.active < http.max_inflight)
        × (is_ready t still ≡ true)
        × (single_header r.headers (text "x-webhook-timestamp") ≡ h.timestamp)
        × (single_header r.headers (text "x-webhook-signature-v2") ≡ h.signature)
        × (single_header r.headers (text "x-request-id") ≡ some e.event_id)
        × (verify g.hmac g.verifier now bytes h ≡ ok tt)
        × (parse_payload g.decode bytes g.policy ≡ ok e)
  accepting_needs before after h id bytes e begun passed =
      let (path, post, up_then, room, time, signature, named) = enter_needs before h id begun in
      let (up_now, same, sound, parsed) = body_needs after h id bytes e passed in
      (path, post, up_then, room, up_now, time, signature, named ∙ ap some same, sound, parsed)

-- The pieces in which a request is handled.
pub data Piece : Type 0 where
  at_entry : Bool → Request → Piece
  at_body : Bool → ℕ → SignatureHeaders → Text → Result (List ℕ) → Piece
  at_store : Notification → Option Acceptance → Piece

abbrev pub handle : HttpConfig → Gate → Server → Piece → Server × Stage
handle http g s (at_entry up r) = enter http up s r
handle http g s (at_body up now h id body) = body_read g s up now h id body
handle http g s (at_store e a) = stored s e a

-- What a success stands on.
abbrev pub Succeeds : Server → Message → Piece → Type 0
Succeeds s m (at_entry up r) = (r.url ≡ text "/ready") × (is_ready s up ≡ true)
Succeeds s m (at_body up now h id body) = ⊥
Succeeds s m (at_store e a) =
    ((a ≡ some accepted) × (m ≡ taken accepted e.event_id))
    ⊎ ((a ≡ some duplicate) × (m ≡ taken duplicate e.event_id))

-- Success (a status below 300) is told only to the readiness probe of a ready server, and to a
-- notification that the store has accepted or had already, with its event's id; before the store
-- has answered, no notification is told of success.
pub success_needs :
    (http : HttpConfig) (g : Gate) (s t : Server) (c : Piece) (b : Answer)
    → handle http g s c ≡ (t, answered b)
    → b.status < 300
    → Succeeds s b.message c
unfolding enter begin body_read stored answer_of status_of
success_needs http g s t (at_entry up r) b e small =
    ground (arith, text_eq_iff r.url (text "/ready"))
success_needs http g s t (at_body up now h id body) b e small = ground arith
success_needs http g s t (at_store x a) b e small = ground arith
