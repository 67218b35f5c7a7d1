-- ===== src/Redis/Documents.antt =====
-- The JSON texts that redis/scripts.ts decodes: a session binding and a checkpoint record. A field
-- is there if it is a string; `size` counts all fields of the table.
use whats_app_mcp_server.Base.{
  ℕ, Bool, true, false, ◌&&◌, Option, none, some, Text, text, holds, ◌==◌, is_some,
}

pub record Binding : Type 0 where
  pub size : ℕ
  pub canonical_chat_id : Option Text
  pub session_id : Option Text
  pub session_file : Option Text

pub record Generation : Type 0 where
  pub size : ℕ
  pub device : Option Text
  pub inode : Option Text
  pub bytes : Option Text
  pub mtime_ns : Option Text
  pub ctime_ns : Option Text

pub record Recovery : Type 0 where
  pub size : ℕ
  pub version : ℕ
  pub event_id : Option Text
  pub event_fingerprint : Option Text
  pub stream_id : Option Text
  pub session : Binding
  pub generation : Generation

pub record Checkpoint : Type 0 where
  pub size : ℕ
  pub checkpoint_id : Option Text
  -- The text of `phase`.
  pub phase : Text
  -- `checkpoint.canonicalChatId`; nothing if `checkpoint` is no table.
  pub chat : Option (Option Text)
  pub recovery : Option Recovery
  pub compaction_entry_id : Option Text

-- `a == b`, where `a` is known to be a string.
abbrev pub same : Option Text → Option Text → Bool
same none o = false
same (some t) o = holds o t

-- Lua's `==` where both sides may be nil.
abbrev pub lua_eq : Option Text → Option Text → Bool
lua_eq none none = true
lua_eq none (some t) = false
lua_eq (some t) o = holds o t

unfoldable pub same_binding : Binding → Binding → Bool
same_binding a b =
    a.size == 3
    && b.size == 3
    && same a.canonical_chat_id b.canonical_chat_id
    && same a.session_id b.session_id
    && same a.session_file b.session_file

unfoldable pub valid_generation : Generation → Bool
valid_generation g =
    g.size == 5
    && is_some g.device
    && is_some g.inode
    && is_some g.bytes
    && is_some g.mtime_ns
    && is_some g.ctime_ns

-- `cjson.decode` of the two texts; `none` is an error, or no table.
pub record Decoder : Type 0 where
  pub binding : Text → Option Binding
  pub checkpoint : Text → Option Checkpoint

abbrev pub prepared : Text
prepared = text "prepared"

abbrev pub compacted : Text
compacted = text "compacted"

abbrev pub restored : Text
restored = text "restored"

abbrev pub aborted : Text
aborted = text "aborted"
