-- ===== src/Tests/Orphans.antt =====
-- A session file of its header and its binding, older than a prepared checkpoint.
use whats_app_mcp_server.Base.{
  ℕ, true, false, Option, none, some, [], ◌∷◌, Text, text, text_eq, if◌then◌else◌,
}
use whats_app_mcp_server.Domain.Checkpoints.{FileGeneration}
use whats_app_mcp_server.Session.Evidence.{text_chunk}
use whats_app_mcp_server.Compaction.Orphan.{Subject}
use whats_app_mcp_server.Compaction.Generation.{FileStat, Inspection}
use whats_app_mcp_server.Tests.Sessions.{session, language, event}
use whats_app_mcp_server.Tests.Checkpoints.{read_back, texts}

abbrev date : Text → Option ℕ
date t = some (if text_eq t (text "2024-02-29T10:00:00Z") then 5 else 8640000000000001)

abbrev subject : Subject
subject = record {
  language = record language { parse_date = date };
  texts = texts;
  binding = session;
  event_id = event;
  prepared = record {
    checkpoint_id = event;
    checkpoint = record read_back { created_at = text "2024-03-01T00:00:00.5Z" };
    generation = none;
  };
  max_bytes = 2048;
}

abbrev stat : FileStat
stat = record {
  is_file = true;
  is_link = false;
  device = 1;
  inode = 2;
  size = 4;
  mtime = 7;
  ctime = 8;
}

abbrev inspection : Inspection
inspection = record {
  before = stat;
  chunks = text_chunk (text "h\nb") ∷ text_chunk (text "\n") ∷ [];
  flushes = true;
  after = stat;
  named = stat;
}

abbrev generation : FileGeneration
generation = record {
  device = text "1";
  inode = text "2";
  size = text "4";
  mtime_ns = text "7";
  ctime_ns = text "8";
}
