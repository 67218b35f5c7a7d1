-- ===== src/Repository/Accept.antt =====
-- `accept` of redis/repository.ts, with `configuredChats` of redis/keys.ts: the completion index is
-- asked in every chat, and the script is called again while another process moves a revision.
use whats_app_mcp_server.Base.{
  ℕ, zero, suc, Bool, true, false, not, ◌&&◌, ◌||◌, Option, none, some, List, [], ◌∷◌, ◌++◌, ◌==◌,
  if◌then◌else◌, Text, text_eq,
}
use whats_app_mcp_server.Domain.Errors.{
  Result, ok, err, ◌>>=◌, ◌>>◌, require, session_failed, store_unavailable, policy_denied,
  config_invalid,
}
use whats_app_mcp_server.Domain.Events.{Notification}
use whats_app_mcp_server.Domain.Fingerprint.{decimal, fingerprint_event}
use whats_app_mcp_server.Redis.Store.{Store, Reply, snapshot, chat_state, retry}
use whats_app_mcp_server.Redis.Store as Redis
use whats_app_mcp_server.Redis.Intake.{AcceptArgs}
use whats_app_mcp_server.Redis.Script.{Ports, snapshots, reads_chat, accepts, run}
use whats_app_mcp_server.Intake.Payload.{AdmissionPolicy, includes, parse_payload}
use whats_app_mcp_server.Intake.Timestamp.{is_timestamp}
use whats_app_mcp_server.Intake.Server.{Acceptance, accepted, duplicate, conflict, unavailable}
use whats_app_mcp_server.Scheduler.Work.{CompletionProof, SessionBinding, same_binding}

-- `[...new Set(chats)]`: the first of each.
unfoldable pub unique_chats : List Text → List Text → List Text
unique_chats seen [] = []
unique_chats seen (c ∷ cs) =
    let rest = unique_chats (c ∷ seen) cs in if includes seen c then rest else c ∷ rest

abbrev with_operator : List Text → List Text → Result (List Text)
with_operator groups [] = err config_invalid
with_operator groups (o ∷ os) = ok (unique_chats [] (groups ++ o ∷ []))

unfoldable pub configured_chats : AdmissionPolicy → Result (List Text)
configured_chats policy = with_operator policy.groups policy.operator_jids

-- What `completions.findEvent` answers: nothing, a document that its schema refuses or an
-- exception, or a proof.
pub data Found : Type 0 where
  missing unreadable : Found
  proof : CompletionProof → Found

-- The outcome of asking the index: an exception, a conflict, or whether the event is completed.
pub data Looked : Type 0 where
  failed conflicting : Looked
  looked : Bool → Looked

-- `verifiedProof`: the proof is of the chat and the event.
unfoldable pub is_verified : CompletionProof → Text → Text → Bool
is_verified p chat id =
    text_eq p.marker.canonical_chat_id chat
    && text_eq p.session.canonical_chat_id chat
    && text_eq p.marker.event_id id

-- What the repository is given: the script's ports, the index as it answers in each attempt, what
-- other processes do to Redis before the lookup and before the script's call, the decoder of a
-- stored binding, and the time of each call.
pub record Surroundings (S : Type 0) : Type 0 where
  pub ports : Ports S
  pub chats : List Text
  pub find : ℕ → Text → Text → Found
  pub before_lookup : ℕ → Store S → Store S
  pub before_accept : ℕ → Store S → Store S
  pub decode : Text → Option SessionBinding
  pub time : ℕ

module _ {S : Type 0} (v : Surroundings S) (e : Notification) (fingerprint raw : Text) where
  abbrev decoded : Option Text → Option SessionBinding
  decoded none = none
  decoded (some t) = v.decode t

  abbrev same_session : Option SessionBinding → SessionBinding → Bool
  same_session none b = false
  same_session (some a) b = same_binding b a

  -- The session of the chat, as the script's `read` answers it.
  abbrev session_in : Reply → Option SessionBinding
  session_in (chat_state cursor session pause gap) = decoded session
  session_in _ = none

  abbrev check_proof : Store S → Text → CompletionProof → Looked
  check_proof s chat p =
      if not (is_verified p chat e.event_id)
      then failed
      else if not (text_eq chat e.canonical_chat_jid)
          || not (p.marker.chat_sequence == e.chat_sequence)
          || not (text_eq p.marker.event_fingerprint fingerprint)
      then conflicting
      else if same_session (session_in (run v.ports s v.time reads_chat).1) p.session
      then looked true
      else failed

  -- The answer for one chat, then the others'.
  abbrev and_then : Looked → (Bool → Looked) → Looked
  and_then (looked b) k = k b
  and_then x k = x

  abbrev look_in : Store S → Text → Bool → Found → Looked
  look_in s chat known missing = looked known
  look_in s chat known unreadable = failed
  look_in s chat known (proof p) = check_proof s chat p

  -- The loop over the chats.
  unfoldable pub look : ℕ → Store S → List Text → Bool → Looked
  look n s [] known = looked known
  look n s (c ∷ cs) known = and_then (look_in s c known (v.find n c e.event_id)) λ k. look n s cs k

  abbrev pub args : Text → Text → Bool → AcceptArgs
  args revision identity_revision completed = record {
    revision = revision;
    event = e.event_id;
    fingerprint = fingerprint;
    seq = decimal 16 e.chat_sequence;
    raw = raw;
    completed = completed;
    chat = e.canonical_chat_jid;
    identity_revision = identity_revision;
  }

  -- The status of a reply; none for a retry.
  abbrev pub status_in : Reply → Result (Option Acceptance)
  status_in retry = ok none
  status_in Redis.accepted = ok (some accepted)
  status_in Redis.duplicate = ok (some duplicate)
  status_in Redis.conflict = ok (some conflict)
  status_in _ = err store_unavailable

  abbrev pub revision_in : Reply → Text
  revision_in (snapshot revision cursor identity_revision) = revision
  revision_in _ = []

  abbrev pub identity_in : Reply → Text
  identity_in (snapshot revision cursor identity_revision) = identity_revision
  identity_in _ = []

  -- One attempt, up to its reply; none is a retry.
  abbrev pub offer_looked : ℕ → Reply → Store S → Looked → Store S × Result (Option Acceptance)
  offer_looked n seen s failed = (s, err session_failed)
  offer_looked n seen s conflicting = (s, ok (some conflict))
  offer_looked n seen s (looked completed) =
      let (t, reply) =
        run v.ports (v.before_accept n s) v.time
          (accepts (args (revision_in seen) (identity_in seen) completed)) in
      (t, status_in reply)

  unfoldable pub offer : ℕ → Store S → Store S × Result (Option Acceptance)
  offer n s =
      let (t, seen) = run v.ports s v.time snapshots in
      let u = v.before_lookup n t in offer_looked n seen u (look n u v.chats false)

  -- The loop of attempts.
  unfoldable pub attempts : ℕ → Store S → Store S × Result Acceptance
  attempts zero s = (s, err store_unavailable)
  attempts (suc n) s =
      let (t, r) = offer n s in
      elim r [ err x ↦ (t, err x) | ok o ↦ elim o [ none ↦ attempts n t | some a ↦ (t, ok a) ] ]

-- What else `accept` closes over: the decoder of JSON, the digest, and whether the writes of this
-- call have become durable.
pub record Admission : Type 0 where
  pub decode : Text → Option Notification
  pub sha256 : Text → Text
  pub policy : AdmissionPolicy
  pub durable : Bool

abbrev durable_status : Bool → Result Acceptance → Acceptance
durable_status true (ok a) = a
durable_status _ _ = unavailable

-- The event, admitted and of a configured chat, with its fingerprint.
unfoldable pub admitted : List Text → Admission → Text → Result (Notification × Text)
admitted chats m raw = do
  e ← parse_payload m.decode raw m.policy
  fingerprint ← fingerprint_event m.sha256 is_timestamp e
  require (includes chats e.canonical_chat_jid) policy_denied
  ok (e, fingerprint)

-- The event as `JSON.stringify` writes it is `raw`, which is parsed again.
unfoldable pub accept_event :
    {S : Type 0} → Surroundings S → Admission → Text → Store S → Store S × Acceptance
accept_event v m raw s = elim (admitted v.chats m raw) [
  | err x ↦ (s, unavailable)
  | ok (e, fingerprint) ↦
      let (t, r) = attempts v e fingerprint raw 8 s in (t, durable_status m.durable r)
]
