-- ===== src/Scheduler/Work.antt =====
-- domain.ts: claimed work, session bindings and completion proofs, as the scheduler handles them.
use whats_app_mcp_server.Base.{ℕ, Bool, false, ◌&&◌, Option, none, some, List, ◌==◌, Text, text_eq}
use whats_app_mcp_server.Domain.Events.{Notification}
use whats_app_mcp_server.Domain.Pauses.{PauseReason}

pub record Fence : Type 0 where
  pub owner : Text
  pub epoch : Text
  pub expires_at : ℕ

pub record Ownership : Type 0 where
  pub app : Fence
  pub chat : Fence

pub record ClaimedWork : Type 0 where
  pub stream_id : Text
  pub event : Notification
  pub ownership : Ownership

pub record SessionBinding : Type 0 where
  pub canonical_chat_id : Text
  pub session_id : Text
  pub session_file : Text

-- `isDeepStrictEqual` of two bindings.
unfoldable pub same_binding : SessionBinding → SessionBinding → Bool
same_binding a b =
    text_eq a.canonical_chat_id b.canonical_chat_id
    && text_eq a.session_id b.session_id
    && text_eq a.session_file b.session_file

-- A binding equal to one that may be missing.
unfoldable pub is_bound : Option SessionBinding → SessionBinding → Bool
unfolding same_binding
is_bound none b = false
is_bound (some a) b = same_binding a b

pub record ChatView : Type 0 where
  pub last_completed : ℕ
  pub session : Option SessionBinding
  pub pause : Option PauseReason

pub data Completion : Type 0 where
  turn context_only : Completion

pub record Send : Type 0 where
  pub destination : Text
  pub message_id : Text

pub record CompletionMarker : Type 0 where
  pub event_id : Text
  pub event_fingerprint : Text
  pub canonical_chat_id : Text
  pub chat_sequence : ℕ
  pub completion : Completion
  pub completed_at : Text
  pub confirmed_sends : List Send

pub record CompletionProof : Type 0 where
  pub marker : CompletionMarker
  pub entry_id : Text
  pub session : SessionBinding

pub data TurnState : Type 0 where
  fresh started lost : TurnState

pub data OwnState : Type 0 where
  confirmed uncertain manual : OwnState

-- The marker is of the event.
unfoldable pub is_marker_of : CompletionMarker → Notification → Text → Bool
is_marker_of m e fingerprint =
    text_eq m.event_id e.event_id
    && text_eq m.canonical_chat_id e.canonical_chat_jid
    && m.chat_sequence == e.chat_sequence
    && text_eq m.event_fingerprint fingerprint
