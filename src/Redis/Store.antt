-- ===== src/Redis/Store.antt =====
-- The keys of one chat in redis/scripts.ts, and the local functions that its operations share.
-- A hash is a record of its fields, which may be missing, or a `Dict`; values that the script
-- writes with `cjson.encode` and reads with `cjson.decode` stand decoded. Milliseconds are numbers.
use whats_app_mcp_server.Base.{
  ℕ, ◌+◌, Bool, true, false, not, ◌&&◌, ◌||◌, Option, none, some, List, ltb, if◌then◌else◌, Text,
  text, holds, Dict, lookup,
}
pub use whats_app_mcp_server.Domain.Pauses.{
  PauseReason, lease_lost, sequence_gap, session_failed, mutation_uncertain, usage_unknown,
  preparation_failed, checkpoint_invalid, compaction_capacity, compaction_failed, restore_failed,
}
use whats_app_mcp_server.Redis.Decimal.{inc}

pub data Status : Type 0 where
  attempting confirmed uncertain : Status

-- The metadata of one mutating tool call.
pub record Mutation : Type 0 where
  pub attempt_id : Text
  pub event_id : Text
  pub tool_call_id : Text
  pub destination : Text
  pub status : Status
  pub message_id : Option Text
  pub finished_at : Option Text

-- A journal record: native ones wrap the state and carry the event's fingerprint.
pub data ToolRecord : Type 0 where
  legacy : Mutation → ToolRecord
  native : Text → Mutation → ToolRecord

-- `record.state or record`.
abbrev pub mutation_of : ToolRecord → Mutation
mutation_of (legacy t) = t
mutation_of (native fp t) = t

abbrev pub with_mutation : ToolRecord → Mutation → ToolRecord
with_mutation (legacy _) t = legacy t
with_mutation (native fp _) t = native fp t

-- `record.state and record.eventFingerprint ~= fp`.
abbrev pub foreign : ToolRecord → Text → Bool
foreign (legacy t) fp = false
foreign (native g t) fp = not (holds (some g) fp)

abbrev pub is_native : ToolRecord → Bool
is_native (legacy t) = false
is_native (native fp t) = true

abbrev pub is_confirmed : Status → Bool
is_confirmed confirmed = true
is_confirmed _ = false

abbrev pub is_attempting : Status → Bool
is_attempting attempting = true
is_attempting _ = false

pub record App : Type 0 where
  pub owner : Option Text
  pub epoch : Option Text
  pub deadline : Option ℕ  -- `until`
  pub identity_revision : Option Text

pub record ChatState : Type 0 where
  pub cursor : Option Text
  pub revision : Option Text
  pub chat : Option Text
  pub durability : Option Text
  pub pause : Option PauseReason
  pub session : Option Text
  pub turn_event : Option Text
  pub gap : Option ℕ

pub record Lease : Type 0 where
  pub owner : Option Text
  pub epoch : Option Text
  pub deadline : Option ℕ  -- `until`
  pub app_owner : Option Text
  pub app_epoch : Option Text
  pub event : Option Text
  pub repair_intent : Option Text

pub record Event : Type 0 where
  pub id : Text
  pub fp : Text
  pub seq : Text
  pub raw : Text

-- The nine keys; `S` is what Redis keeps for a stream and its consumer group.
pub record Store (S : Type 0) : Type 0 where
  pub app : App
  pub state : ChatState
  pub lease : Lease
  pub stream : S
  pub events : Dict Event
  pub seqs : Dict Text
  pub tools : Dict ToolRecord
  pub checkpoint : Option Text
  pub identities : Dict Text

-- `HGET key field or '0'`, of a counter and of milliseconds.
abbrev pub or_zero : Option Text → Text
or_zero none = text "0"
or_zero (some t) = t

abbrev pub ms_or_zero : Option ℕ → ℕ
ms_or_zero none = 0
ms_or_zero (some n) = n

pub data Reply : Type 0 where
  ok invalid retry conflict duplicate accepted busy lost paused waiting empty started : Reply
  ineligible unsafe intent_required store_unavailable : Reply
  renewed : Option Text → ℕ → Reply
  snapshot : Text → Text → Text → Reply
  claimed : Text → Text → Option Text → ℕ → Reply
  recovered : Text → ℕ → ℕ → Reply
  repair_claimed : Text → Text → Text → Text → Option Text → ℕ → Reply
  current : Option ℕ → Option ℕ → Reply
  turn : Option Text → Reply
  chat_state : Text → Option Text → Option PauseReason → Option ℕ → Reply
  journal : List ToolRecord → Reply
  latest : Option Text → Reply

-- ARGV[2] to ARGV[5] of a fenced operation.
pub record Fence : Type 0 where
  pub app_owner : Text
  pub app_epoch : Text
  pub chat_owner : Text
  pub chat_epoch : Text

-- ARGV[2] to ARGV[8].
pub record Work : Type 0 where
  pub fence : Fence
  pub event : Text
  pub stream_id : Text
  pub fingerprint : Text

abbrev pub alive : Option Text → Option Text → Option ℕ → Text → Text → ℕ → Bool
alive o e deadline owner epoch now = holds o owner && holds e epoch && ltb now (ms_or_zero deadline)

module _ {S : Type 0} where
  unfoldable pub app_alive : Store S → ℕ → Text → Text → Bool
  app_alive s now owner epoch = alive s.app.owner s.app.epoch s.app.deadline owner epoch now

  unfoldable pub fenced : Store S → ℕ → Fence → Bool
  unfolding app_alive
  fenced s now f =
      app_alive s now f.app_owner f.app_epoch
      && alive s.lease.owner s.lease.epoch s.lease.deadline f.chat_owner f.chat_epoch now
      && holds s.lease.app_epoch f.app_epoch
      && holds s.lease.app_owner f.app_owner

  -- `work()`: the event that the caller holds, or nothing.
  unfoldable pub work : Store S → ℕ → Work → Option Event
  unfolding fenced
  work s now w =
      if fenced s now w.fence
      then elim (lookup w.event s.events) [
        | none ↦ none
        | some e ↦
            if not (holds (some e.id) w.stream_id)
              || not (holds (some e.fp) w.fingerprint)
              || not (holds s.lease.event w.event)
            then none
            else some e
      ]
      else none

  -- `sameApp and tonumber(HGET lease 'until' or '0') > now()`: this application already works.
  unfoldable pub chat_busy : Store S → ℕ → Text → Text → Bool
  chat_busy s now owner epoch =
      holds s.lease.app_epoch epoch
      && holds s.lease.app_owner owner
      && ltb now (ms_or_zero s.lease.deadline)

  abbrev pub with_state : Store S → ChatState → Store S
  with_state s c = record s { state = c }

  unfoldable pub barrier : Store S → Store S
  barrier s =
      with_state s (record (s.state) { durability = some (inc (or_zero s.state.durability)) })

  abbrev pub set_pause : Store S → PauseReason → Store S
  set_pause s r = with_state s (record (s.state) { pause = some r })

  -- `fence` and `renew` of a chat lease that is granted to a new owner.
  unfoldable pub grant : Store S → ℕ → Text → Text → Text → Text → Text → ℕ → Store S
  grant s now app_owner app_epoch owner epoch event ms = record s {
    lease = record (s.lease) {
      owner = some owner;
      epoch = some epoch;
      deadline = some (now + ms);
      app_owner = some app_owner;
      app_epoch = some app_epoch;
      event = some event;
    };
  }
