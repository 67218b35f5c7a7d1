-- ===== src/Tests/Setup.antt =====
-- A small Redis for the tests: the stream is the number of entries, and one event waits in it.
use whats_app_mcp_server.Base.{
  ℕ, ◌+◌, none, some, [], ◌∷◌, Option, Text, text, text_eq, if◌then◌else◌,
}
use whats_app_mcp_server.Redis.Store.{Store, Fence, Work, Mutation, attempting}
use whats_app_mcp_server.Redis.Intake.{created, AcceptArgs}
use whats_app_mcp_server.Redis.Claim.{ClaimArgs}
use whats_app_mcp_server.Redis.Documents.{Binding, Checkpoint, prepared, aborted}
use whats_app_mcp_server.Redis.Script.{Ports, run, init_chat, acquires_app, accepts, claims}
use whats_app_mcp_server.Base.{false, lookup, insert, remove, values}
use whats_app_mcp_server.Redis.Decimal.{inc, less, value, scale}
use whats_app_mcp_server.Redis.Store.{app_alive, chat_busy}
use whats_app_mcp_server.Redis.Store
use whats_app_mcp_server.Redis.Claim.{unresolved, settle_all}
use whats_app_mcp_server.Redis.Turn.{settled}
use whats_app_mcp_server.Redis.Documents.{same_binding}
use whats_app_mcp_server.Redis.Repair.{repair_evidence, is_prepared, is_row, is_pending, is_bound}
use whats_app_mcp_server.Redis.Checkpoint.{bad_transition, aborts}
use whats_app_mcp_server.Redis.Script.{run_all, app_claim}
use whats_app_mcp_server.Redis.Fencing.{work_of}

abbrev pub binding : Binding
binding = record {
  size = 3;
  canonical_chat_id = some (text "c");
  session_id = some (text "s");
  session_file = some (text "f");
}

-- The text `P` is a prepared record of the chat, `A` the same aborted.
abbrev pub record_of : Text → Option Checkpoint
record_of t = some (record {
  size = 3;
  checkpoint_id = some (text "k");
  phase = if text_eq t (text "P") then prepared else aborted;
  chat = some (some (text "c"));
  recovery = none;
  compaction_entry_id = none;
})

abbrev pub ports : Ports ℕ
ports = record {
  xgroup_create = λ s g. (s, created);
  xadd = λ s e. (s + 1, text "1-0");
  xclaim = λ s g c id. (s, id ∷ []);
  xautoclaim = λ s g c from n. (s, some (text "0-0", [], []));
  xack = λ s g id. s;
  xdel = λ s id. s;
  reads = record {
    xrange = λ s id. (id, text "event" ∷ text "e1" ∷ []) ∷ [];
    xpending = λ s g id. id ∷ [];
  };
  decoder = record { binding = λ t. some binding; checkpoint = record_of };
}

abbrev pub nothing : Store ℕ
nothing = record {
  app = record { owner = none; epoch = none; deadline = none; identity_revision = none };
  state = record {
    cursor = none;
    revision = none;
    chat = none;
    durability = none;
    pause = none;
    session = none;
    turn_event = none;
    gap = none;
  };
  lease = record {
    owner = none;
    epoch = none;
    deadline = none;
    app_owner = none;
    app_epoch = none;
    event = none;
    repair_intent = none;
  };
  stream = 0;
  events = [];
  seqs = [];
  tools = [];
  checkpoint = none;
  identities = [];
}

abbrev pub accept_args : AcceptArgs
accept_args = record {
  revision = text "0";
  event = text "e1";
  fingerprint = text "h1";
  seq = text "1";
  raw = text "r1";
  completed = false;
  chat = text "c";
  identity_revision = text "0";
}

abbrev pub claim_args : ClaimArgs
claim_args = record {
  app_owner = text "a";
  app_epoch = text "1";
  chat_owner = text "w";
  lease_ms = 50;
  gap_timeout = 30;
  group = text "g";
}

abbrev pub held : Work
held = record {
  fence = record {
    app_owner = text "a";
    app_epoch = text "1";
    chat_owner = text "w";
    chat_epoch = text "1";
  };
  event = text "e1";
  stream_id = text "1-0";
  fingerprint = text "h1";
}

-- The application `a` has its lease, from 10 to 110.
abbrev pub owned : Store ℕ
owned =
    (run ports (run ports nothing 0 (init_chat (text "c") (text "g"))).0 10
      (acquires_app (text "a") 100)).0

-- The first event waits.
abbrev pub waiting : Store ℕ
waiting = (run ports owned 11 (accepts accept_args)).0

-- And is leased, from 12 to 62.
abbrev pub leased : Store ℕ
leased = (run ports waiting 12 (claims claim_args)).0

-- Its line opens what the runs compute with.
unfoldable pub evaluation : Unit {0}
unfolding run run_all inc text_eq value scale lookup insert remove values unresolved settle_all less
    app_alive chat_busy Store.work work_of app_claim settled repair_evidence is_prepared is_row
    is_pending is_bound same_binding bad_transition aborts
evaluation = tt
