-- ===== src/Redis/Intake.antt =====
-- `init`, `snapshot`, `accept` and `read` of redis/scripts.ts.
use whats_app_mcp_server.Base.{
  ◌++◌, Bool, false, not, ◌||◌, none, some, if◌then◌else◌, Text, text, holds, lookup, insert,
  is_some,
}
use whats_app_mcp_server.Redis.Decimal.{less}
use whats_app_mcp_server.Redis.Store.{
  ChatState, Store, or_zero, Reply, ok, invalid, retry, conflict, duplicate, accepted,
  store_unavailable, snapshot, chat_state, barrier, with_state,
}

-- What `XGROUP CREATE` answers.
pub data GroupReply : Type 0 where
  created busy_group failed : GroupReply

-- `EXISTS state`: some field is there.
abbrev pub exists : ChatState → Bool
exists c =
    is_some c.cursor
    || is_some c.revision
    || is_some c.chat
    || is_some c.durability
    || is_some c.pause
    || is_some c.session
    || is_some c.turn_event
    || is_some c.gap

-- The identity under which an event is known to all chats.
abbrev pub identity_of : Text → Text → Text
identity_of chat fp = chat ++ text "|" ++ fp

abbrev new_state : ChatState → Text → ChatState
new_state c chat =
    if exists c
    then c
    else record c { cursor = some (text "0"); revision = some (text "0"); chat = some chat }

pub record AcceptArgs : Type 0 where
  pub revision : Text
  pub event : Text
  pub fingerprint : Text
  pub seq : Text
  pub raw : Text
  pub completed : Bool
  pub chat : Text
  pub identity_revision : Text

module _ {S : Type 0} where
  unfoldable pub init : (S → Text → S × GroupReply) → Store S → Text → Text → Store S × Reply
  init xgroup_create s chat group =
      let t = with_state s (new_state s.state chat) in
      if not (holds t.state.chat chat)
      then (t, invalid)
      else let (stream, reply) = xgroup_create t.stream group in
        let u = record t { stream = stream } in
        elim reply [ failed ↦ (u, store_unavailable) | _ ↦ (barrier u, ok) ]

  unfoldable pub take_snapshot : Store S → Store S × Reply
  take_snapshot s = (
    s,
    snapshot (or_zero s.state.revision) (or_zero s.state.cursor) (or_zero s.app.identity_revision),
  )

  -- The writes of a new event, which `XADD` gives its place in the stream.
  unfoldable pub admit : Store S × Text → AcceptArgs → Store S
  admit (s, id) a = record s {
    events =
        insert a.event (record { id = id; fp = a.fingerprint; seq = a.seq; raw = a.raw }) s.events;
    seqs = insert a.seq a.event s.seqs;
    identities = insert a.event (identity_of a.chat a.fingerprint) s.identities;
  }

  -- The tests behind the lookup of the event itself.
  accept_new : (S → Text → S × Text) → Store S → AcceptArgs → Store S × Reply
  unfolding admit
  accept_new xadd s a =
      if elim (lookup a.seq s.seqs) [ none ↦ false | some other ↦ not (holds (some other) a.event) ]
      then (s, conflict)
      else if a.completed
      then (barrier s, duplicate)
      else if not (less (or_zero s.state.cursor) a.seq)
      then (s, conflict)
      else let (stream, id) = xadd s.stream a.event in
        (barrier (admit (record s { stream = stream }, id) a), accepted)

  unfoldable pub accept : (S → Text → S × Text) → Store S → AcceptArgs → Store S × Reply
  unfolding accept_new
  accept xadd s a =
      if not (holds (some (or_zero s.state.revision)) a.revision)
        || not (holds (some (or_zero s.app.identity_revision)) a.identity_revision)
      then (s, retry)
      else if elim (lookup a.event s.identities) [
        | none ↦ false
        | some existing ↦ not (holds (some existing) (identity_of a.chat a.fingerprint))
      ]
      then (s, conflict)
      else elim (lookup a.event s.events) [
        | some e ↦
            if not (holds (some e.fp) a.fingerprint) || not (holds (some e.seq) a.seq)
            then (s, conflict)
            else (barrier s, duplicate)
        | none ↦ accept_new xadd s a
      ]

  unfoldable pub read : Store S → Store S × Reply
  read s = (s, chat_state (or_zero s.state.cursor) s.state.session s.state.pause s.state.gap)
