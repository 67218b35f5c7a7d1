-- ===== src/Tests/Webhook.antt =====
-- Bodies, signatures, timestamps and usage decisions.
use whats_app_mcp_server.Base.{
  ℕ, ◌+◌, ◌%◌, ◌<◌, ◌≡◌, ◌↔◌, refl, true, false, none, some, Option, List, [], ◌∷◌, ◌++◌, Text,
  text, text_eq, arith,
}
use whats_app_mcp_server.Domain.Errors.{ok}
use whats_app_mcp_server.Domain.Events.{Notification, group, check_notification}
use whats_app_mcp_server.Domain.Patterns.{
  is_opaque_id, is_group_jid, is_participant_jid, behind_digits,
}
use whats_app_mcp_server.Intake.Timestamp.{Stamp, utc, valid_timestamp, is_timestamp}
use whats_app_mcp_server.Intake.Calendar.{write, IsMoment, valid_timestamp-write}
use whats_app_mcp_server.Intake.Payload.{
  AdmissionPolicy, parse_payload, utf8_length, includes, admit,
}
use whats_app_mcp_server.Intake.Signature.{Verifier, SignatureHeaders, verify}
use whats_app_mcp_server.Intake.Hex.{to_hex}
use whats_app_mcp_server.Intake.Authenticity.{IsAuthentic, verify_iff}
use whats_app_mcp_server.Compaction.Usage.{
  Config, natural, UsagePolicy, UsageSnapshot, Budget, usable, dynamic, figures, decide,
  create_usage_policy,
}
use whats_app_mcp_server.Compaction.Headroom.{need, enough_fits}

leap_day_is_valid : valid_timestamp (text "2024-02-29T23:59:59.123Z") ≡ true
unfolding valid_timestamp
leap_day_is_valid = refl

century_is_no_leap_year : valid_timestamp (text "1900-02-29T00:00:00+02:00") ≡ false
unfolding valid_timestamp
century_is_no_leap_year = refl

abbrev stamp : Stamp
stamp = record { year = 2024; month = 2; day = 29; hour = 1; minute = 2; second = 3; zone = utc }

valid_timestamp-write_example : (valid_timestamp (write stamp (b'5' ∷ [])) ≡ true) ↔ IsMoment stamp
valid_timestamp-write_example = valid_timestamp-write stamp (b'5' ∷ []) (record {
  year = omega arith;
  month = omega arith;
  day = omega arith;
  hour = omega arith;
  minute = omega arith;
  second = omega arith;
  zone = tt;
  digits = refl;
  places = omega arith;
})

abbrev pub message : Notification
message = record {
  event_id = text "0123456789abcdef0123456789abcdef";
  message_id = text "M1";
  event_timestamp = text "2024-02-29T23:59:59Z";
  received_at = text "2024-02-29T23:59:59Z";
  chat_sequence = 1;
  sender_jid = text "49@lid";
  sender_alt_jid = none;
  is_from_me = false;
  chat_kind = group;
  chat_jid = text "12@g.us";
  canonical_chat_jid = text "12@g.us";
}

abbrev policy : AdmissionPolicy
policy = record { groups = text "12@g.us" ∷ []; operator_jids = text "49@lid" ∷ [] }

abbrev decode : Text → Option Notification
decode raw = some message

message_passes : parse_payload decode [] policy ≡ ok message
unfolding parse_payload check_notification is_timestamp valid_timestamp utf8_length is_opaque_id
    is_group_jid is_participant_jid behind_digits text_eq includes admit
message_passes = refl

-- Any function of 32 bytes; this one sums the message into the last.
total : List ℕ → ℕ
total [] = 0
total (c ∷ cs) = c + total cs

abbrev zeros : List ℕ
zeros = 0 ∷ 0 ∷ 0 ∷ 0 ∷ 0 ∷ 0 ∷ 0 ∷ 0 ∷ 0 ∷ 0 ∷ 0 ∷ 0 ∷ 0 ∷ 0 ∷ 0 ∷ 0 ∷ []

abbrev checksum : Text → List ℕ → List ℕ
checksum k m =
    zeros ++ 0 ∷ 0 ∷ 0 ∷ 0 ∷ 0 ∷ 0 ∷ 0 ∷ 0 ∷ 0 ∷ 0 ∷ 0 ∷ 0 ∷ 0 ∷ 0 ∷ 0 ∷ total m % 256 ∷ []

abbrev verifier : Verifier
verifier = record { key = text "k"; freshness = 300 }

abbrev signed : SignatureHeaders
signed = record {
  timestamp = some (text "100");
  signature = some (to_hex (checksum (text "k") (text "100" ++ b'.' ∷ text "{}")));
}

verify_iff_example :
    (verify checksum verifier 150999 (text "{}") signed ≡ ok tt)
    ↔ IsAuthentic checksum verifier 150999 (text "{}") signed
verify_iff_example =
    verify_iff checksum verifier 150999 (text "{}") signed (λ m. (omega arith, refl))

abbrev config : Config
config = record {
  safe_working_window_tokens = natural 200000;
  default_context_window_tokens = natural 262144;
  headroom_percent = natural 15;
  response_reserve_tokens = natural 4096;
  preparation_reserve_tokens = natural 2048;
  summary_reserve_tokens = natural 2048;
  checkpoint_max_bytes = natural 65536;
}

abbrev usage_policy : UsagePolicy
usage_policy = record { safe_working_window = 200000; headroom_percent = 15; reserve = 8192 }

abbrev snapshot : Option UsageSnapshot
snapshot = some (record {
  tokens = some (natural 50000);
  context_window = natural 250000;
  percent = some (natural 20);
})

abbrev budget : Budget
budget = record { event = natural 500; tools = natural 1000; prompt = natural 2000 }

enough_fits_example :
    let f = figures usage_policy 50000 250000 11692 in
    (tokens : ℕ) × (window : ℕ) × (sum : ℕ) × (usable snapshot ≡ some (tokens, window))
    × (dynamic budget ≡ some sum)
    × (need usage_policy tokens sum < window)
    × (need usage_policy tokens sum < 200000)
    × (f.projected_tokens ≡ need usage_policy tokens sum)
    × (f.remaining_tokens + need usage_policy tokens sum ≡ f.effective_window)
unfolding decide create_usage_policy
enough_fits_example =
    enough_fits config usage_policy snapshot budget (figures usage_policy 50000 250000 11692) refl
      refl
