-- ===== src/Lib.antt =====
-- Verification library of the opencode master: the services of the program that assigns the
-- opencode sessions of users to workers, and keeps their turns.
--
-- The program, and the files here
-- A worker registers with the master and sends heartbeats (src/services/worker-registry.ts:
-- Registry). A user has a ring of candidate workers (src/placement/consistent-hash.ts: Placement)
-- among which the least loaded is taken (src/placement/load.ts: Placement/Load); `place` of
-- src/services/session-service.ts puts these together (Assignment). The rest of that file is the
-- directory of sessions (Sessions): the worker that owns a session, under a lease epoch that rises
-- with each change of owner. A prompt to a session is a turn (src/services/turn-service.ts:
-- Turns), run by the owner under the epoch it was given. A session works in a workspace
-- (src/services/workspace-service.ts: Workspaces). The scheduler sweeps for lost workers and moves
-- their sessions (src/services/scheduler.ts: Scheduler), and the events of a session are kept in a
-- journal (src/services/event-journal.ts: Journal). On a worker, src/worker/stream-hub.ts keeps
-- the latest events of each session in a buffer, in the form of src/protocol/opencode-stream.ts
-- (StreamHub), src/worker/session-actor.ts queues the work of each session (Worker/Actor),
-- src/worker/event-reporter.ts reports events with retries (Worker/Reporter),
-- src/worker/workspace-runtime.ts keeps the paths of workspaces (Worker/Runtime),
-- src/worker/opencode-executor.ts drives its native opencode (Worker/Executor, and
-- Worker/Outcomes for what it returns),
-- src/worker/proxy-server.ts takes the requests of the master (Worker/Proxy), src/worker/index.ts
-- publishes what the runs bring (Worker/Runs), and src/worker/session-snapshot.ts keeps exports of
-- sessions (Worker/Snapshots). Files of workspaces are stored and versioned by src/workspace
-- (Storage): objects by digest, manifests with a head (Storage/Manifests), the way between a
-- folder and the store (Storage/Sync), and a mounted folder (Storage/Mounted). Users and their API
-- keys are in src/services/identity.ts (Identity), with the tokens of src/auth/jwt.ts
-- (Identity/Tokens). Web applications use the master by src/client.ts (Client), which also reads
-- its stream of events (Client/Events). The master answers requests (src/http/server.ts and
-- src/http/helpers.ts: Http): who is asking and what they may touch (Http/Access), the handlers
-- (Http/Accounts, Http/Workers, Http/Directory, Http/Prompts, Http/Triggers), what they send to
-- workers (Http/Bodies), the runs of the gateway that they start (Http/Runs), the table of routes
-- (Http/Routes), and the frames of server-sent events (Http/Sse), on the router of
-- src/http/router.ts (Router). The gateway to a native opencode is
-- src/services/opencode-gateway.ts (Gateway): what it reads of a context (Gateway/Messages), its
-- stream of events (Gateway/Frames), and its prompts and answers (Gateway/Native, Gateway/Calls).
-- Types holds the types of src/types.ts and the rows of src/db/schema.ts, Database the tables,
-- Config the configuration of src/config.ts. Base has the shared tests, lists, tables of rows,
-- numbered rows, texts and sorting; Samples a small state for the tests, which stand in the Tests
-- module of each part.
--
-- How code and model correspond
-- A table is the list of its rows, and a query is a function on that list: `find?` for `.get()`,
-- `select` for `.all()`, `update` for `update … where`, and the end of the list for an insert; an
-- insert whose primary key is taken throws. An operation takes the state and returns the next one,
-- with `returns` or `throws` for its outcome. A method's name is kept in snake_case (`createOrGet`
-- is `create_or_get`); `end` is `end_session`. The clock's readings and the random ids of an
-- operation are arguments. Each operation, and each handler, runs as a whole: calls that interleave
-- at an `await` are not modelled, except those of `createOrGet` and of `append`, statement by
-- statement (Turns/Races, Journal/Races, on Base/Interleave). A handler is an action on the
-- master's state that returns or throws; what it wrote stays written when it throws. What it calls
-- outside of the master, which is the hash, tokens and workers, is the record `Outside`; the answer
-- of a worker is a function of the request. A run of the gateway that a handler starts is noted in
-- the state, and is modelled on its own. It takes its outcome as an argument, and writes the deltas
-- of the run before the outcome. Bodies are read at the types that the handlers declare. The
-- handler of a route is a number in the table of routes, and an endpoint, with its id and its body,
-- in `serve`. Where a query asks for an order by time, ties are taken in the order of the rows.
--
-- Numbers
-- Times, epochs, loads and weights are natural numbers. The 32-bit operations of the hash are
-- written with their wrap-around, on unsigned values. The load score is the source's times 8000,
-- where each term is a whole number; the floating-point rounding of the source is not modelled, nor
-- are loads that are negative, which it raises to 0, or fractions. The rehoming of a worker's sessions
-- reads the clock once, and the source for each session. A path is what `new URL` makes of a request's
-- address, which is not modelled: the paths that are built from an id are given with the id as it is,
-- which holds for the ids of the master. The position of a stream is what `Number` reads, a whole
-- number or `NaN`.
-- The binary search of the ring runs on fuel, the length of the ring, which is enough because each
-- round makes the window smaller. Event ids are numbers, where the source sends their texts. The
-- loop of the client that takes frames from its buffer runs as often as the buffer has characters,
-- which is enough because a frame ends with two of them. The loop that waits for a native opencode
-- runs for as many rounds as are given; 602 are enough for its deadline of 600 seconds, with a
-- second or more from a round to the next.
--
-- Not modelled
-- The start of the worker and of its native opencode, the simulated executor, `historyFromEvents`
-- of src/worker/executor.ts, which no program calls, the synchronisation of the worker's
-- configuration and the scripts are not modelled here, nor the constructor of the master and the
-- start of its server, nor the opening of the database and its migrations, nor the web console,
-- which is a page of HTML. Of the file systems, paths and contents are modelled, but no folders.
-- The hash of API keys and of objects, the HMAC, `JSON.parse`, `JSON.stringify`,
-- `decodeURIComponent`, `node:path` and base64 are parameters, and SQLite is represented by the
-- lists only. The request that `abort` sends to the native opencode is left out, since its answer
-- is not used. The deltas of a run are taken before its result, although the program may still
-- pass some on that it has read.
mod Base
pub mod Types
pub mod Registry
pub mod Placement
pub mod Client
pub mod Config
pub mod Database
pub mod Assignment
pub mod Workspaces
pub mod Sessions
pub mod Turns
pub mod Samples
pub mod Scheduler
pub mod Journal
pub mod StreamHub
pub mod Storage
pub mod Identity
pub mod Router
pub mod Http
pub mod Worker
pub mod Gateway
