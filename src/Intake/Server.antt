-- ===== src/Intake/Server.antt =====
-- `createWebhookServer` of intake/server.ts. The handling of a request is cut where it waits: before
-- its body, and for the store. Between the pieces other requests are handled.
use whats_app_mcp_server.Base.{
  ℕ, ◌+◌, ◌-◌, Bool, true, false, not, ◌&&◌, ◌||◌, Option, none, some, List, [], ◌∷◌, leb, ◌==◌,
  if◌then◌else◌, length, is_some, Text, text, text_eq,
}
use whats_app_mcp_server.Domain.Errors.{
  ErrorClass, Result, ok, err, ◌>>=◌, ◌>>◌, require, signature_invalid, payload_invalid,
  policy_denied, body_too_large, body_invalid, request_timeout, store_unavailable,
  identity_conflict, not_ready, intake_closed, internal_failed,
}
use whats_app_mcp_server.Domain.Patterns.{is_opaque_id, max_safe}
use whats_app_mcp_server.Domain.Events.{Notification}
use whats_app_mcp_server.Redis.Decimal.{value}
use whats_app_mcp_server.Intake.Payload.{AdmissionPolicy, parse_payload}
use whats_app_mcp_server.Intake.Signature.{Verifier, SignatureHeaders, is_natural, is_blank, verify}

-- `toLowerCase`, of ASCII.
abbrev lower : ℕ → ℕ
lower c = if leb 65 c && leb c 90 then c + 32 else c

unfoldable pub to_lower : Text → Text
to_lower [] = []
to_lower (c ∷ cs) = lower c ∷ to_lower cs

-- The values of a header, in order.
unfoldable pub header_values : Text → List (Text × Text) → List Text
unfolding to_lower
header_values name [] = []
header_values name ((n, v) ∷ hs) =
    let rest = header_values name hs in if text_eq (to_lower n) name then v ∷ rest else rest

abbrev only : List Text → Option Text
only [] = none
only (v ∷ []) = some v
only (v ∷ w ∷ vs) = none

unfoldable pub single_header : List (Text × Text) → Text → Option Text
unfolding header_values
single_header headers name = only (header_values name headers)

-- `\s*`.
unfoldable pub skip_blank : Text → Text
skip_blank [] = []
skip_blank (c ∷ cs) = let rest = skip_blank cs in if is_blank c then rest else c ∷ cs

-- What follows a prefix.
unfoldable pub after_prefix : Text → Text → Option Text
after_prefix [] t = some t
after_prefix (c ∷ cs) [] = none
after_prefix (c ∷ cs) (d ∷ ds) = let rest = after_prefix cs ds in if c == d then rest else none

abbrev is_charset : Text → Bool
is_charset [] = false
is_charset (c ∷ cs) = c == b';' && text_eq (skip_blank cs) (text "charset=utf-8")

-- `/^application\/json(?:\s*;\s*charset=utf-8)?$/i`.
unfoldable pub is_json_type : Text → Bool
unfolding to_lower after_prefix skip_blank
is_json_type t = elim (after_prefix (text "application/json") (to_lower t)) [
  | none ↦ false
  | some [] ↦ true
  | some (c ∷ cs) ↦ is_charset (skip_blank (c ∷ cs))
]

pub record HttpConfig : Type 0 where
  pub webhook_path : Text
  pub max_body_bytes : ℕ
  pub max_inflight : ℕ

pub record Request : Type 0 where
  pub url : Text
  pub method : Text
  pub headers : List (Text × Text)

pub data Acceptance : Type 0 where
  accepted duplicate conflict unavailable : Acceptance

-- The bodies of the answers.
pub data Message : Type 0 where
  ready unready not_found method_not_allowed unsupported_media_type : Message
  failed : ErrorClass → Message
  taken : Acceptance → Text → Message

pub record Answer : Type 0 where
  pub status : ℕ
  pub message : Message

-- The status of an error class.
unfoldable pub status_of : ErrorClass → ℕ
status_of signature_invalid = 401
status_of policy_denied = 403
status_of body_too_large = 413
status_of request_timeout = 408
status_of identity_conflict = 409
status_of store_unavailable = 503
status_of not_ready = 503
status_of intake_closed = 503
status_of internal_failed = 500
status_of _ = 400

-- A request that waits for its body, for the store, or has its answer.
pub data Stage : Type 0 where
  reading : SignatureHeaders → Text → Stage
  accepting : Notification → Stage
  answered : Answer → Stage

pub record Server : Type 0 where
  pub stopping : Bool
  pub active : ℕ

abbrev pub refuse : ErrorClass → Answer
refuse e = record { status = status_of e; message = failed e }

-- `ready()`, where `is_ready` is what the port answers, false if it throws.
abbrev pub is_ready : Server → Bool → Bool
is_ready s up = not s.stopping && up

abbrev pub not_now : Server → ErrorClass
not_now s = if s.stopping then intake_closed else not_ready

-- The body's declared length is none, or a number in range.
unfoldable pub check_length : ℕ → Option Text → Result (Unit {0})
check_length limit none = ok tt
check_length limit (some t) = do
  require (is_natural (length t) t && leb (value t) max_safe) body_invalid
  require (leb (value t) limit) body_too_large

abbrev opaque : Option Text → Result Text
opaque none = err signature_invalid
opaque (some t) = if is_opaque_id t then ok t else err signature_invalid

abbrev is_media : List (Text × Text) → Bool
is_media headers =
    elim (single_header headers (text "content-type")) [ none ↦ false | some t ↦ is_json_type t ]
    && elim (header_values (text "content-encoding") headers) [
      | [] ↦ true
      | v ∷ [] ↦ text_eq v (text "identity")
      | v ∷ w ∷ vs ↦ false
    ]

-- The checks of the headers behind the media type: what the body's checks need.
unfoldable pub check_headers : HttpConfig → List (Text × Text) → Result (SignatureHeaders × Text)
check_headers http headers = do
  check_length http.max_body_bytes (single_header headers (text "content-length"))
  let timestamp = single_header headers (text "x-webhook-timestamp")
  let signature = single_header headers (text "x-webhook-signature-v2")
  require (is_some timestamp && is_some signature) signature_invalid
  id ← opaque (single_header headers (text "x-request-id"))
  ok (record { timestamp = timestamp; signature = signature }, id)

abbrev release : Server → Server
release s = record s { active = s.active - 1 }

abbrev end_with : Server → Answer → Server × Stage
end_with s a = (release s, answered a)

-- From `active++` to the body.
unfoldable pub begin : HttpConfig → Server → Request → Server × Stage
begin http s r =
    if not (is_media r.headers)
    then end_with s (record { status = 415; message = unsupported_media_type })
    else elim (check_headers http r.headers) [
      | err e ↦ end_with s (refuse e)
      | ok (h, id) ↦ (s, reading h id)
    ]

-- `handle`, up to the body.
unfoldable pub enter : HttpConfig → Bool → Server → Request → Server × Stage
unfolding begin
enter http up s r =
    if text_eq r.url (text "/ready") && text_eq r.method (text "GET")
    then (
      s,
      answered (
          if is_ready s up
          then record { status = 200; message = ready }
          else record { status = 503; message = unready }),
    )
    else if not (text_eq r.url http.webhook_path)
    then (s, answered (record { status = 404; message = not_found }))
    else if not (text_eq r.method (text "POST"))
    then (s, answered (record { status = 405; message = method_not_allowed }))
    else if not (is_ready s up) || leb http.max_inflight s.active
    then (s, answered (refuse (not_now s)))
    else begin http (record s { active = s.active + 1 }) r

-- What the handler closes over, with HMAC and the decoding of a body.
pub record Gate : Type 0 where
  pub hmac : Text → List ℕ → List ℕ
  pub decode : Text → Option Notification
  pub verifier : Verifier
  pub policy : AdmissionPolicy

-- The checks behind the body, at the clock's `now`.
unfoldable pub check_body :
    Gate → Server → Bool → ℕ → SignatureHeaders → Text → Result (List ℕ) → Result Notification
check_body g s up now h id body = do
  bytes ← body
  verify g.hmac g.verifier now bytes h
  e ← parse_payload g.decode bytes g.policy
  require (text_eq id e.event_id) payload_invalid
  require (is_ready s up) (not_now s)
  ok e

unfoldable pub body_read :
    Gate → Server → Bool → ℕ → SignatureHeaders → Text → Result (List ℕ) → Server × Stage
unfolding check_body
body_read g s up now h id body = elim (check_body g s up now h id body) [
  | err e ↦ end_with s (refuse e)
  | ok e ↦ (s, accepting e)
]

-- The answer of the store; none if it threw, or answered with another shape.
unfoldable pub answer_of : Notification → Option Acceptance → Answer
answer_of e none = refuse store_unavailable
answer_of e (some unavailable) = refuse store_unavailable
answer_of e (some conflict) = refuse identity_conflict
answer_of e (some duplicate) = record { status = 200; message = taken duplicate e.event_id }
answer_of e (some accepted) = record { status = 202; message = taken accepted e.event_id }

unfoldable pub stored : Server → Notification → Option Acceptance → Server × Stage
unfolding answer_of
stored s e a = end_with s (answer_of e a)

-- `stopIntake`.
unfoldable pub stop_intake : Server → Server
stop_intake s = record s { stopping = true }
