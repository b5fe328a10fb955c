-- ===== src/Http/Workers.antt =====
-- src/http/server.ts: what workers and administrators send: registrations, heartbeats, sweeps, and the
-- events of a turn.
use opencode_master.Base.{
  ℕ, String, Option, none, some, Bool, true, false, List, if◌then◌else◌, ◌==◌, ◌&&◌, ◌||◌, or_else,
  eqb,
}
use opencode_master.Types.{
  AuthContext, Role, WorkerLoad, WorkerCapacity, WorkerRow, TurnRow, Json, Result, returns, throws,
  SessionRow, Instruction,
}
use opencode_master.Config.{Config}
use opencode_master.Database.{Database}
use opencode_master.Registry
use opencode_master.Registry.{empty_load, RegisterInput}
use opencode_master.Scheduler.{run_once}
use opencode_master.Sessions
use opencode_master.Turns
use opencode_master.Turns.{is_current_lease, complete, fail}
use opencode_master.Journal.{AppendInput, append}
use opencode_master.Journal.History.{member, text_of}
use opencode_master.Http.{
  Response, Action, answer, calls, updates, writes, stored, read_json, json, api_error,
  worker_registered, beat, swept, event_accepted, ◌>>=◌, ◌>>◌,
}
use opencode_master.Http.Access.{Outside, no_session}

pub record RegisterBody : Type 0 where
  pub id : Option String
  pub address : Option String
  pub region : Option String
  pub version : Option String
  pub capacity : Option WorkerCapacity

abbrev registered_input : RegisterBody → RegisterInput
registered_input body = record {
  id = or_else body.id "";
  address = or_else body.address "";
  region = body.region;
  version = body.version;
  capacity = body.capacity;
}

abbrev with_registry : Database → Registry.Registry × Result WorkerRow → Database × Result WorkerRow
with_registry db (r, result) = (record db { registry = r }, result)

abbrev worker_context : String → String → AuthContext
worker_context id tenant = record { sub = id; tenant = tenant; role = Role.worker }

abbrev register_named : Outside → AuthContext → RegisterInput → ℕ → Action Response
register_named outside auth input now = do
  worker ← calls (λ db. with_registry db (Registry.register db.registry input now))
  answer (
      json
        (worker_registered worker (outside.issue_token (worker_context input.id auth.tenant) now))
        201)

abbrev register_if_named : Outside → AuthContext → RegisterInput → ℕ → Action Response
register_if_named outside auth input now =
    if input.id == "" || input.address == ""
    then answer (api_error 400 "BAD_REQUEST" "id and address required")
    else register_named outside auth input now

unfoldable pub register_worker : Outside → AuthContext → Option RegisterBody → ℕ → Action Response
register_worker outside auth text now = do
  body ← read_json text
  register_if_named outside auth (registered_input body) now

pub record HeartbeatBody : Type 0 where
  pub load : Option WorkerLoad
  pub config_version : Option String

abbrev view_of : WorkerRow × List Instruction → WorkerRow
view_of (view, _) = view

abbrev with_view :
    Database
    → Registry.Registry × Result (WorkerRow × List Instruction)
    → Database × Result WorkerRow
with_view db (r, returns sent) = (record db { registry = r }, returns (view_of sent))
with_view db (r, throws e) = (record db { registry = r }, throws e)

-- The instructions that the registry returns are not part of the answer.
unfoldable pub heartbeat : String → Option HeartbeatBody → ℕ → Action Response
heartbeat id text now = do
  body ← read_json text
  view ← calls (λ db.
      with_view db
        (Registry.heartbeat db.registry id (or_else body.load empty_load) body.config_version now))
  answer (json (beat view.status) 200)

unfoldable pub sweep : Config → ℕ → ℕ → Action Response
sweep cfg now later = do
  report ← updates (λ db. run_once true db cfg now later)
  answer (json (swept report) 200)

-- `data` is `none` where it is missing, null, an array or no object; `lease_epoch` where it is no
-- number.
pub record EventBody : Type 0 where
  pub session_id : Option String
  pub turn_id : Option String
  pub lease_epoch : Option ℕ
  pub source_id : Option String
  pub type : Option String
  pub payload : Option Json

-- The body of an event, with all that is required.
pub record Event : Type 0 where
  pub session_id : String
  pub turn_id : String
  pub lease_epoch : ℕ
  pub source_id : String
  pub type : String
  pub payload : Json

abbrev pub required : Option String → Option String
required none = none
required (some s) = if s == "" then none else some s

unfoldable pub event_of : EventBody → Option Event
event_of body = elim (required body.session_id) [
  | none ↦ none
  | some session_id ↦ elim (required body.turn_id) [
    | none ↦ none
    | some turn_id ↦ elim body.lease_epoch [
      | none ↦ none
      | some lease_epoch ↦ elim (required body.source_id) [
        | none ↦ none
        | some source_id ↦ elim (required body.type) [
          | none ↦ none
          | some type ↦ elim body.payload [
            | none ↦ none
            | some payload ↦ some (record {
              session_id = session_id;
              turn_id = turn_id;
              lease_epoch = lease_epoch;
              source_id = source_id;
              type = type;
              payload = payload;
            })
          ]
        ]
      ]
    ]
  ]
]

-- The turn is the event's, and its lease is the worker's and current.
abbrev pub fits : String → Event → TurnRow → Bool
fits worker_id event turn =
    turn.session_id == event.session_id
    && turn.assigned_worker_id == worker_id
    && eqb turn.lease_epoch event.lease_epoch

unfoldable pub may_report : Database → String → Event → Bool
may_report db worker_id event = elim (Turns.get db event.turn_id) [
  | none ↦ false
  | some turn ↦
      fits worker_id event turn && is_current_lease db event.session_id worker_id event.lease_epoch
]

abbrev pub stale_lease : Response
stale_lease = api_error 409 "STALE_LEASE" "worker lease is no longer current"

abbrev pub failure_message : Json → String
failure_message payload = or_else (text_of (member "message" payload)) "worker execution failed"

-- The turn ends with its last event.
abbrev pub settle : Database → String → Event → ℕ → Database
settle db worker_id event now =
    if event.type == "session.idle"
    then (complete db event.turn_id worker_id event.lease_epoch now).0
    else if event.type == "worker.execution.error"
    then (fail db event.turn_id worker_id event.lease_epoch (failure_message event.payload) now).0
    else db

abbrev pub appended_event : Event → String → String → AppendInput
appended_event event worker_id tenant_id = record {
  session_id = event.session_id;
  tenant_id = tenant_id;
  turn_id = event.turn_id;
  worker_id = worker_id;
  lease_epoch = event.lease_epoch;
  source_id = event.source_id;
  type = event.type;
  payload = event.payload;
}

abbrev pub tenant_of : Option (SessionRow × Option WorkerRow) → Option String
tenant_of none = none
tenant_of (some (session, _)) = some session.tenant_id

abbrev journal : String → Event → String → ℕ → ℕ → String → Action Response
journal worker_id event id now later tenant_id m =
    (do
      kept ←
          λ n. stored n (append n.db n.listeners (appended_event event worker_id tenant_id) id now)
      writes (λ db. settle db worker_id event later)
      answer (json (event_accepted kept.event) 202))
      m

abbrev accept : String → Event → String → ℕ → ℕ → Action Response
accept worker_id event id now later m =
    if may_report m.db worker_id event
    then elim (tenant_of (Sessions.get m.db event.session_id)) [
      | none ↦ (m, returns (no_session event.session_id))
      | some tenant_id ↦ journal worker_id event id now later tenant_id m
    ]
    else (m, returns stale_lease)

abbrev incomplete_event : Response
incomplete_event =
    api_error 400 "BAD_REQUEST"
      "sessionID, turnID, leaseEpoch, sourceID, type and data are required"

unfoldable pub ingest_worker_event : String → Option EventBody → String → ℕ → ℕ → Action Response
ingest_worker_event worker_id text id now later = do
  body ← read_json text
  λ m. elim (event_of body) [
    | none ↦ (m, returns incomplete_event)
    | some event ↦ accept worker_id event id now later m
  ]
