-- ===== src/Tests/Requests.antt =====
-- Requests to a server whose store and clock stand still.
use whats_app_mcp_server.Base.{
  ℕ, ◌<◌, true, false, some, List, [], ◌∷◌, ◌≡◌, ◌⊎◌, refl, arith, text, text_eq, length, ltb,
  if◌then◌else◌,
}
use whats_app_mcp_server.Domain.Errors.{ok, err, body_too_large}
use whats_app_mcp_server.Domain.Events.{check_notification}
use whats_app_mcp_server.Domain.Patterns.{
  is_opaque_id, is_group_jid, is_participant_jid, is_jid, behind_digits,
}
use whats_app_mcp_server.Redis.Decimal.{value, scale}
use whats_app_mcp_server.Intake.Timestamp.{is_timestamp, valid_timestamp}
use whats_app_mcp_server.Intake.Payload.{parse_payload, admit, utf8_length, includes}
use whats_app_mcp_server.Intake.Signature.{SignatureHeaders, verify, is_natural, from_hex}
use whats_app_mcp_server.Intake.Body.{finish, read_body}
use whats_app_mcp_server.Intake.Server.{
  HttpConfig, Request, Server, Gate, enter, body_read, reading, accepting, accepted, is_ready,
  single_header, check_headers, begin, check_body, check_length, is_json_type, to_lower,
  header_values, skip_blank, after_prefix, stored, answer_of, taken, duplicate,
}
use whats_app_mcp_server.Intake.Requests.{arrives, stops, happen, IsCounted, happen-IsCounted}
use whats_app_mcp_server.Intake.Reading.{
  chunks_of, concatenated, read_body-chunks, accepting_needs, success_needs, at_store,
}
use whats_app_mcp_server.Tests.Webhook.{message}

abbrev http : HttpConfig
http = record { webhook_path = text "/webhooks/w"; max_body_bytes = 10; max_inflight = 2 }

abbrev zeros : List ℕ
zeros =
    0 ∷ 0 ∷ 0 ∷ 0 ∷ 0 ∷ 0 ∷ 0 ∷ 0 ∷ 0 ∷ 0 ∷ 0 ∷ 0 ∷ 0 ∷ 0 ∷ 0 ∷ 0 ∷ 0 ∷ 0 ∷ 0 ∷ 0 ∷ 0 ∷ 0 ∷ 0 ∷ 0
    ∷ 0 ∷ 0 ∷ 0 ∷ 0 ∷ 0 ∷ 0 ∷ 0 ∷ 0 ∷ []

abbrev gate : Gate
gate = record {
  hmac = λ k m. zeros;
  decode = λ t. some message;
  verifier = record { key = []; freshness = 300 };
  policy = record { groups = message.chat_jid ∷ []; operator_jids = [] };
}

abbrev headers : SignatureHeaders
headers = record {
  timestamp = some (text "1");
  signature = some (text "0000000000000000000000000000000000000000000000000000000000000000");
}

abbrev request : Request
request = record {
  url = text "/webhooks/w";
  method = text "POST";
  headers =
      (text "Content-Type", text "application/json; charset=UTF-8")
      ∷ (text "Content-Length", text "2")
      ∷ (text "X-Webhook-Timestamp", text "1")
      ∷ (
        text "X-Webhook-Signature-V2",
        text "0000000000000000000000000000000000000000000000000000000000000000",
      )
      ∷ (text "X-Request-Id", message.event_id)
      ∷ [];
}

abbrev idle : Server
idle = record { stopping = false; active = 0 }

abbrev busy : Server
busy = record { stopping = false; active = 1 }

abbrev closed : Server
closed = record { stopping = true; active = 0 }

request_enters : enter http true idle request ≡ (busy, reading headers message.event_id)
unfolding enter begin check_headers check_length is_json_type to_lower single_header header_values
    skip_blank after_prefix is_natural is_opaque_id text_eq value scale
request_enters = refl

body_passes :
    body_read gate busy true 1000 headers message.event_id (ok (text "{}"))
    ≡ (busy, accepting message)
unfolding body_read check_body verify parse_payload admit utf8_length includes is_natural from_hex
    check_notification is_timestamp valid_timestamp is_opaque_id is_group_jid is_participant_jid
    is_jid behind_digits text_eq value scale
body_passes = refl

accepting_needs_example :
    (request.url ≡ http.webhook_path)
    × (request.method ≡ text "POST")
    × (is_ready idle true ≡ true)
    × (0 < http.max_inflight)
    × (is_ready busy true ≡ true)
    × (single_header request.headers (text "x-webhook-timestamp") ≡ headers.timestamp)
    × (single_header request.headers (text "x-webhook-signature-v2") ≡ headers.signature)
    × (single_header request.headers (text "x-request-id") ≡ some message.event_id)
    × (verify gate.hmac gate.verifier 1000 (text "{}") headers ≡ ok tt)
    × (parse_payload gate.decode (text "{}") gate.policy ≡ ok message)
accepting_needs_example =
    accepting_needs http gate idle busy true true 1000 request busy busy headers message.event_id
      (text "{}") message request_enters body_passes

read_body-chunks_example : read_body 2 (chunks_of (text "ab" ∷ text "c" ∷ []) (finish ∷ [])) ≡ (
    if ltb 2 (length (concatenated (text "ab" ∷ text "c" ∷ [])))
    then some (err body_too_large)
    else some (ok (concatenated (text "ab" ∷ text "c" ∷ []))))
read_body-chunks_example = read_body-chunks 2 (text "ab" ∷ text "c" ∷ []) []

happen-IsCounted_example :
    IsCounted http
      (happen http gate (idle, []) (arrives true request ∷ arrives false request ∷ stops ∷ []))
happen-IsCounted_example =
    happen-IsCounted http gate (idle, [])
      (arrives true request ∷ arrives false request ∷ stops ∷ [])
      (record { counted = refl; bounded = omega arith })

success_needs_example :
    ((some accepted ≡ some accepted)
      × (taken accepted message.event_id ≡ taken accepted message.event_id))
    ⊎ ((some accepted ≡ some duplicate)
        × (taken accepted message.event_id ≡ taken duplicate message.event_id))
unfolding stored answer_of
success_needs_example =
    success_needs http gate busy idle (at_store message (some accepted))
      (record { status = 202; message = taken accepted message.event_id }) refl (omega arith)
