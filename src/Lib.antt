-- ===== src/Lib.antt =====
-- WhatsApp-MCP-Server: the session controller, the TypeScript service that takes the bridge's
-- signed notifications and hands them, one chat at a time and in order, to an agent's session.
--
-- The parts and how they interact. The webhook server (intake/) authenticates a request, admits its
-- notification and stores it through the repository. All shared state lives in Redis, and only the
-- Lua script of redis/scripts.ts writes it: the lease of the application, and for each chat its
-- stream, cursor, lease, journal of tool calls, pause and checkpoint. The scheduler claims the next
-- event of a chat, runs a turn in the chat's session, and completes the event; a session that has
-- grown too large is compacted first, under a checkpoint.
--
-- Where each part is modelled (paths are under session-controller/src/):
--   Domain        domain.ts: pause reasons, error classes, notifications, the patterns of fields,
--                 and the fingerprint of an event.
--   Redis         redis/scripts.ts. Redis/Store is the store of one chat with the application's
--                 lease, the fences `app()` and `work()` and the helpers of the script; Intake, App,
--                 Claim, Turn, Journal, Documents, Repair and Checkpoint hold the operations;
--                 Script is the dispatch `run` over the data type of calls, and `run_all` runs a
--                 sequence of timed calls. The other files there are proofs, named for what they
--                 prove.
--   Intake        intake/payload.ts, intake/signature.ts and intake/server.ts: Server has the handler
--                 of a request, cut where it waits, Body the reader of a body, Requests many requests
--                 at once.
--   Scheduler     scheduler/chat-worker.ts: Machine has the worker's variables and its `await`,
--                 Ownership the check of its lease, Worker the run itself; Protocol, Gating, Course,
--                 Memory and Turns are proofs over the trace of its acts. The trace is kept by the
--                 model only. What the renewal loop may do while the worker waits is arbitrary:
--                 renew the ownership, note a loss.
--                 Coordinator is scheduler/coordinator.ts and scheduler/recovery.ts, the loop over the
--                 chats cut where it waits; Tasks and Stopping are its proofs.
--   Repository    redis/repository.ts, its accept: Accept asks the completion index and calls the
--                 script of Redis, Attempts proves what its answers mean. The eight attempts of the
--                 code are the fuel of the loop, and running out of it is an answer of the code. Own is
--                 its ownMutation, on what the script answers of each chat; Reviewed has the proof.
--   Json          the values that JSON.parse answers, and how the code looks into them; the schemas
--                 that are checked on them are Domain/Schemas, from domain.ts.
--   Session       pi/completion-index.ts: Log has the entries of a session file, Evidence the reader of
--                 its lines and its attempts, Paths the check of the directories above it, Reader the
--                 whole of readEvidence; Index is the cache with its reservations, Lookup the lookups
--                 over the sessions of all chats, Calls the calls of the index in sequence. Chunks,
--                 Proofs, Stillness, Serving, Misses, Counting and Absence are proofs. The eight
--                 attempts of the reader are its fuel, and running out of them is its error.
--   Journal       pi/tool-journal-extension.ts: Arguments (tools, mentions, destinations), Confirmation
--                 (the evidence of a result), Live (the session's state and its steps), Hooks, Turn
--                 and Sends; Steps, Writes, Begun, Matching, Settled, Poison and Evidence are proofs.
--                 What the n-th awaited call answers, and whether something has poisoned the session
--                 meanwhile, is a function of n. A session's queue runs one action after another.
--   Compaction    compaction/usage-policy.ts: Usage, with its proofs in Headroom.
--                 compaction/checkpoint.ts: Sensitive, Checkpoint (validation and summary) and History
--                 (the confirmed outcomes of a branch); Summary, Backing and Confirmed are proofs.
--                 compaction/orphan-recovery.ts: Orphan reads the lines of a session file, Generation
--                 has the generations, the capture and the attempts, again with a fuel of eight;
--                 Quiet, Unclaimed, Fractions, Instants and Orphanhood are proofs. Times are
--                 milliseconds or nanoseconds from
--                 the earliest time of JavaScript, so that they are natural numbers.
--   Base, Tests   shared names and lemmas; concrete runs.
--
-- How the code is rendered. A call of the script is a function from the store and the time to the
-- store and a reply, since Redis runs a script to its end without another between. Its time is the
-- one that `TIME` answers with in that call. A text is the list of its code units, a decimal counter
-- of the script stays a text, as in Redis, and the numbers are natural numbers. The store is typed,
-- so the script's test of the key's type has nothing to refuse, and a value that the script packs
-- and unpacks is kept unpacked, while the texts that come from callers go through the decoder.
-- Interleavings are sequences of calls by anybody, at any times: the times need not be ordered.
--
-- Parameters, because they are no code of the repository: the stream commands (XADD, XCLAIM,
-- XAUTOCLAIM, XACK, XDEL, XRANGE, XPENDING, XGROUP) on an arbitrary type of streams, the decoder of
-- JSON texts, HMAC-SHA-256 and SHA-256, the agent's sessions, and the JSON and UTF-8 decoding of a
-- body; `JSON.parse`, `Date.parse`, the functions of node's `path`, and what the file system shows of
-- a session file in each attempt; and `JSON.stringify`. They are arbitrary, save that a digest has
-- 32 bytes where the verifier is concerned, and that `dirname` shortens a path or leaves it. The
-- lengths of decimal texts are bounded where the code bounds them: a sequence, as a safe integer,
-- has at most 16 digits. The other loops are structural recursion. The five patterns of secrets in
-- compaction/checkpoint.ts are code of the repository that is not translated: in their place stands
-- an arbitrary test of texts, so that what is proved holds for those patterns too.
--
-- Left out of what is modelled: times of a file before 1970, and of createJournalTurns the guard
-- against a second prompt, since the journal's run asks for the prompt once; a failure of that run
-- before the prompt is among the answers of the prompt.
--
-- Not modelled: the parts that mostly move input and output (main.ts, redis/client.ts), the phases of a
-- compaction (compaction/compactor.ts, checkpoint-extension.ts, recovery-manifest.ts), the agent's
-- sessions and its loader (pi/session-host.ts, mcp-loader.ts, prompt-policy.ts), config.ts, the calls
-- of redis/repository.ts other than accept and ownMutation; of the tool journal the categories of a
-- failed prompt, which are only logged, and the freezing of an event's input; the libraries, and
-- the other programs of the repository (bridge, MCP server, embedder, transcriber, dashboard).

pub mod Base
pub mod Domain
pub mod Redis
pub mod Intake
pub mod Json
pub mod Compaction
pub mod Tests
pub mod Scheduler
pub mod Session
pub mod Journal
pub mod Repository
