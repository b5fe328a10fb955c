-- ===== src/Http.antt =====
-- src/http/server.ts and src/http/helpers.ts: the master as one state, its answers, and the errors that
-- a request may end with. The bodies of requests are read at the types that the handlers declare, with
-- `none` for a text that is not JSON; answers are values, before they are printed as JSON.
pub mod Access
pub mod Bodies
mod Tests
pub mod Accounts
pub mod Workers
pub mod Directory
pub mod Runs
pub mod Prompts
pub mod Triggers
pub mod Ownership
pub mod Fencing
pub mod Sending
pub mod Streams
pub mod Sse
pub mod Endings
pub mod Routes
use opencode_master.Base.{
  ℕ, String, Option, none, some, List, [], ◌∷◌, ◌++◌, not, template, decimal,
}
use opencode_master.Types.{
  WorkerRow, WorkerStatus, SessionRow, TurnRow, EventRow, HistoryItem, AuthContext, Json, Error,
  quota_exceeded, no_worker_available, session_not_found, unknown_worker, active_turn,
  stale_turn_lease, syntax_error, internal, Result, returns, throws,
}
use opencode_master.Database.{Database}
use opencode_master.Journal.{Subscription}
use opencode_master.Scheduler.{SchedulerReport}

-- What a session's status report has.
pub record StatusReport : Type 0 where
  pub session : SessionRow
  pub status : String
  pub active_turn : Option TurnRow
  pub latest_turn : Option TurnRow

-- The content of an answer.
pub data Reply : Type 0 where
  failure : String → String → Reply
  token_issued : String → AuthContext → Reply
  key_created : String → Reply
  worker_registered : WorkerRow → String → Reply
  beat : WorkerStatus → Reply
  workers : List WorkerRow → Reply
  sessions : List SessionRow → Reply
  session : SessionRow → Reply
  renamed : Option SessionRow → Reply
  assignment : SessionRow → WorkerRow → Reply
  swept : SchedulerReport → Reply
  messages : List HistoryItem → Reply
  admitted : String → Option TurnRow → Reply
  triggered : String → Option TurnRow → String → String → Reply
  event_accepted : EventRow → Reply
  accepted : Reply
  ended : Reply
  identity : AuthContext → Reply
  report : StatusReport → Reply
  availability : ℕ → Reply
  healthy : Reply
  page : Reply
  stream : List EventRow → Reply

pub record Response : Type 0 where
  pub status : ℕ
  pub reply : Reply

abbrev json : Reply → ℕ → Response
json reply status = record { status = status; reply = reply }

abbrev pub api_error : ℕ → String → String → Response
api_error status code message = json (failure code message) status

-- A run of the gateway that a handler starts and does not wait for.
pub data Job : Type 0 where
  prompts : String → String → String → TurnRow → String → ℕ → String → List HistoryItem → Job
  resumes : String → String → TurnRow → String → ℕ → String → Json → Job

-- The master: its tables, the journal's listeners, the sessions that the gateway is to abort, and the
-- runs of the gateway that were started.
pub record Master : Type 0 where
  pub db : Database
  pub listeners : List Subscription
  pub aborted : List String
  pub jobs : List Job

-- A step of a handler. What was written stays written when it throws.
abbrev Action {ℓ} : Type ℓ → Type ℓ
Action A = Master → Master × Result A

abbrev continue {ℓ κ} :
    {A : Type ℓ} {B : Type κ} → Master × Result A → (A → Action B) → Master × Result B
continue (m, returns a) f = f a m
continue (m, throws e) f = (m, throws e)

infixl 5 ◌>>=◌ ◌>>◌
abbrev ◌>>=◌ {ℓ κ} : {A : Type ℓ} {B : Type κ} → Action A → (A → Action B) → Action B
◌>>=◌ action f m = continue (action m) f

abbrev ◌>>◌ {ℓ κ} : {A : Type ℓ} {B : Type κ} → Action A → Action B → Action B
action >> next = action >>= λ _. next

module _ {ℓ} {A : Type ℓ} where
  abbrev pub answer : A → Action A
  answer a m = (m, returns a)

  abbrev throw : Error → Action A
  throw e m = (m, throws e)

  -- A read of the tables, and an operation of a service on them.
  abbrev reads : (Database → A) → Action A
  reads f m = (m, returns (f m.db))

  abbrev pub stored : Master → Database × Result A → Master × Result A
  stored m (db, r) = (record m { db = db }, r)

  abbrev calls : (Database → Database × Result A) → Action A
  calls f m = stored m (f m.db)

  abbrev updates : (Database → Database × A) → Action A
  updates f m = let (db, a) = f m.db in (record m { db = db }, returns a)

  -- `readJson`.
  abbrev read_json : Option A → Action A
  read_json none = throw syntax_error
  read_json (some body) = answer body

abbrev writes : (Database → Database) → Action (Unit {0})
writes f m = (record m { db = f m.db }, returns tt)

abbrev starts : Job → Action (Unit {0})
starts job m = (record m { jobs = m.jobs ++ job ∷ [] }, returns tt)

-- `mapError`, with the messages of the error classes.
unfoldable pub map_error : Error → Response
map_error (quota_exceeded user max) =
    api_error 429 "QUOTA_EXCEEDED"
      (template ("user " ∷ user ∷ " exceeded max sessions: " ∷ decimal max ∷ []))
map_error no_worker_available = api_error 503 "NO_WORKER_AVAILABLE" "no healthy worker available"
map_error (session_not_found id) =
    api_error 404 "SESSION_NOT_FOUND" (template ("session not found: " ∷ id ∷ []))
map_error (unknown_worker id) =
    api_error 404 "WORKER_NOT_FOUND" (template ("unknown worker: " ∷ id ∷ []))
map_error (active_turn id) =
    api_error 409 "ACTIVE_TURN" (template ("session " ∷ id ∷ " already has an active turn" ∷ []))
map_error (stale_turn_lease id) =
    api_error 409 "STALE_TURN_LEASE" (template ("turn " ∷ id ∷ " lease is stale" ∷ []))
map_error syntax_error = api_error 400 "BAD_REQUEST" "invalid JSON body"
map_error (internal _) = api_error 500 "INTERNAL" "internal server error"
