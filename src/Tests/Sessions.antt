-- ===== src/Tests/Sessions.antt =====
-- A session file of three lines, in a language whose documents are the letters `h`, `b` and `c`, and
-- an index over it.
use whats_app_mcp_server.Base.{
  ◌≡◌, refl, true, false, Option, none, some, List, [], ◌∷◌, map, Text, text, text_eq,
  if◌then◌else◌, lookup, arith, insert,
}
use whats_app_mcp_server.Json.{
  Json, object, member, end, string, number, whole, null, array, nil, at, keys_of,
}
use whats_app_mcp_server.Domain.Schemas.{
  binding_of, marker_of, is_fingerprint, sends_of, completion_in, has_send,
}
use whats_app_mcp_server.Domain.Patterns.{
  is_opaque_id, is_chat_jid, is_group_jid, is_jid, behind_digits,
}
use whats_app_mcp_server.Intake.Timestamp.{scan, days_of, is_leap, is_timestamp}
use whats_app_mcp_server.Intake.Payload.{includes}
use whats_app_mcp_server.Scheduler.Work.{SessionBinding, CompletionProof, turn, same_binding}
use whats_app_mcp_server.Session.Log.{
  Language, valid_time, ranged, is_header, entry_head, is_shaped, starts_with, binding_type,
  completion_type,
}
use whats_app_mcp_server.Session.Evidence.{
  Stat, Attempt, text_chunk, unread, lines_of, consume, consume_all, consume_entry, consume_shaped,
  consume_custom, consume_binding, consume_completion, takes_marker, has_sequence, read_chunks,
  scanned, judge_attempt, read_attempts, evidence,
}
use whats_app_mcp_server.Session.Chunks.{read_chunks-read_text, concatenated, read_text}
use whats_app_mcp_server.Json.Inversion.{none-some}
use whats_app_mcp_server.Scheduler.Work.{Send, manual}
use whats_app_mcp_server.Session.Proofs.{Indexed}
use whats_app_mcp_server.Session.Stillness.{ReadIn}
use whats_app_mcp_server.Session.Reader.{read_evidence, evidence_needs}
use whats_app_mcp_server.Session.Paths.{
  walk, ends_with, Files, check_ancestors, is_session_path, Clear,
}
use whats_app_mcp_server.Session.Index.{
  Index, Looks, file_evidence, identity, in_cache, canonical_chats, is_snapshot, unrepeated,
  chats_of, rows_fit, reserve_file, publish,
}
use whats_app_mcp_server.Session.Lookup.{
  Outside, find_event, all_proofs, rebuild, rebuild_from, note_events, find_proof, some_sent,
  classify_own, route,
}
use whats_app_mcp_server.Session.Serving.{CacheHolds, ReadingsHold}
use whats_app_mcp_server.Session.Absence.{
  AllClean, is_of, sent, find_event-AllClean, classify_own-AllClean,
}
use whats_app_mcp_server.Session.Calls.{calls, finds, publishes, calls-poisoned}

abbrev pub time : Json
time = string (text "2024-02-29T10:00:00Z")

abbrev pub event : Text
event = text "0123456789abcdef0123456789abcdef"

abbrev pub print : Text
print = text "sha256:v1:0123456789abcdef0123456789abcdef0123456789abcdef0123456789abcdef"

abbrev pub header : Json
header = object (
    member (text "type") (string (text "session")) (
      member (text "version") (number (whole 3)) (
        member (text "id") (string (text "s"))
          (member (text "cwd") (string (text "/")) (member (text "timestamp") time end)))))

-- An entry of the controller.
abbrev pub entry : Text → Json → Text → Json → Json
entry id parent kind content = object (
    member (text "type") (string (text "custom")) (
      member (text "id") (string id) (
        member (text "parentId") parent (
          member (text "timestamp") time
            (member (text "customType") (string kind) (member (text "data") content end))))))

abbrev pub chat : Text
chat = text "1@g.us"

abbrev pub session : SessionBinding
session = record {
  canonical_chat_id = chat;
  session_id = text "s";
  session_file = text "/r/s.jsonl";
}

abbrev pub bound_data : Json
bound_data = object (
    member (text "canonicalChatId") (string chat) (
      member (text "sessionId") (string (text "s"))
        (member (text "sessionFile") (string (text "/r/s.jsonl")) end)))

abbrev pub bound : Json
bound = entry (text "1") null binding_type bound_data

abbrev pub completed : Json
completed = entry (text "2") (string (text "1")) completion_type (
    object (
      member (text "version") (number (whole 1)) (
        member (text "eventId") (string event) (
          member (text "eventFingerprint") (string print) (
            member (text "canonicalChatId") (string chat) (
              member (text "chatSequence") (number (whole 1)) (
                member (text "completion") (string (text "turn")) (
                  member (text "completedAt") time
                    (member (text "confirmedSends") (array nil) end)))))))))

abbrev pub parse_letter : Text → Option Json
parse_letter t =
    if text_eq t (text "h")
    then some header
    else if text_eq t (text "b")
    then some bound
    else if text_eq t (text "c")
    then some completed
    else none

abbrev pub language : Language
language = record { parse = parse_letter; parse_date = λ t. some 5 }

abbrev pub proof : CompletionProof
proof = record {
  marker = record {
    event_id = event;
    event_fingerprint = print;
    canonical_chat_id = chat;
    chat_sequence = 1;
    completion = turn;
    completed_at = text "2024-02-29T10:00:00Z";
    confirmed_sends = [];
  };
  entry_id = text "2";
  session = session;
}

abbrev pub sample : Stat
sample = record { is_file = true; is_link = false; device = 1; inode = 2; bytes = 6; mtime = 7 }

abbrev whole_attempt : Attempt
whole_attempt = record {
  before = sample;
  chunks = text_chunk (text "h\nb") ∷ text_chunk (text "\nc\n") ∷ [];
  flushes = true;
  after = sample;
  named = sample;
  synced = true;
  durable = sample;
  durable_name = sample;
}

read_chunks-read_text_example :
    read_chunks language session (map text_chunk (text "h\nb" ∷ text "\nc\n" ∷ [])) [] unread
    ≡ read_text language session
        (concatenated language session (text "h\nb" ∷ text "\nc\n" ∷ []))
        unread
read_chunks-read_text_example =
    read_chunks-read_text language session (text "h\nb" ∷ text "\nc\n" ∷ []) unread

-- Paths that are their own directories, but for the session file.
abbrev pub files : Files
files = record {
  is_absolute = λ t. starts_with (text "/") t;
  relative = λ r t. text "s.jsonl";
  resolve = λ t. t;
  dirname = λ t. if text_eq t (text "/r/s.jsonl") then text "/r" else t;
  is_directory = λ t. text_eq t (text "/r");
}

file_is_read :
    read_evidence files (text "/r") language session (λ n. some whole_attempt)
    ≡ evidence (proof ∷ [])
unfolding read_evidence check_ancestors walk is_session_path ends_with read_attempts judge_attempt
    scanned read_chunks lines_of consume consume_all consume_entry consume_shaped consume_custom
    consume_binding consume_completion takes_marker has_sequence is_header entry_head is_shaped
    starts_with valid_time ranged scan days_of is_leap is_timestamp includes text_eq at binding_of
    marker_of is_fingerprint sends_of completion_in is_opaque_id is_chat_jid is_group_jid is_jid
    behind_digits same_binding keys_of
file_is_read = refl

evidence_needs_example :
    (is_session_path files (text "/r") session ≡ true)
    × Clear files (text "/r") (text "/r")
    × ReadIn language session (λ n. some whole_attempt) 8 (proof ∷ [])
    × Indexed language session (proof ∷ [])
unfolding text_eq
evidence_needs_example =
    evidence_needs files (text "/r") language session (λ n. some whole_attempt) (proof ∷ [])
      file_is_read

abbrev empty_index : Index
empty_index = record { poisoned = []; pending = []; cache = [] }

abbrev seen : Looks
seen = record {
  on_path = true;
  before = some sample;
  confirming = some sample;
  reading = evidence (proof ∷ []);
  after = some sample;
}

abbrev outside : Outside
outside = record {
  policy = record { groups = chat ∷ []; operator_jids = [] };
  on_path = λ b. true;
  rows = some (record { chat = chat; binding = some session } ∷ []);
  looks = λ b. seen;
}

evidence_injective : {ps qs : List CompletionProof} → evidence ps ≡ evidence qs → ps ≡ qs
evidence_injective h = ground (arith, h)

-- Nothing but the one proof is read.
abbrev Only : Text → List CompletionProof → Type 0
Only f ps = proof ∷ [] ≡ ps

empty-CacheHolds : CacheHolds Only empty_index
unfolding lookup
empty-CacheHolds file c h = absurd (none-some h)

seen-ReadingsHold : ReadingsHold Only outside.looks
seen-ReadingsHold b ps h = evidence_injective h

event_is_missed : (find_event outside chat (text "x") empty_index).1 ≡ some none
unfolding find_event all_proofs rebuild rebuild_from canonical_chats is_snapshot unrepeated chats_of
    rows_fit file_evidence identity in_cache lookup insert note_events find_proof includes text_eq
event_is_missed = refl

find_event-AllClean_example : AllClean Only outside empty_index (is_of chat (text "x"))
find_event-AllClean_example =
    find_event-AllClean Only outside empty_index chat (text "x") empty-CacheHolds seen-ReadingsHold
      event_is_missed

abbrev unknown_send : Send
unknown_send = record { destination = chat; message_id = text "m" }

message_is_manual :
    (classify_own outside chat unknown_send (some false) (some false) empty_index).1 ≡ some manual
unfolding classify_own route all_proofs rebuild rebuild_from canonical_chats is_snapshot unrepeated
    chats_of rows_fit file_evidence identity in_cache lookup insert note_events some_sent has_send
    includes text_eq
message_is_manual = refl

classify_own-AllClean_example :
    (some false ≡ some false)
    × (some false ≡ some false)
    × AllClean Only outside empty_index (sent unknown_send)
classify_own-AllClean_example =
    classify_own-AllClean Only outside empty_index chat unknown_send (some false) (some false)
      empty-CacheHolds seen-ReadingsHold message_is_manual

abbrev poisoned_index : Index
poisoned_index = record { poisoned = text "/r/s.jsonl" ∷ []; pending = []; cache = [] }

session_is_poisoned : includes poisoned_index.poisoned session.session_file ≡ true
unfolding includes text_eq
session_is_poisoned = refl

calls-poisoned_example :
    let y = calls (finds outside chat (text "x") ∷ publishes session ∷ []) poisoned_index in
    ((file_evidence session seen y).1 ≡ none)
    × (reserve_file session y ≡ none)
    × (publish session y ≡ none)
calls-poisoned_example =
    calls-poisoned (finds outside chat (text "x") ∷ publishes session ∷ []) poisoned_index session
      seen session_is_poisoned
