-- ===== src/Worker/Runs.antt =====
-- src/worker/index.ts: what a worker publishes of the runs that its proxy sets off: the work that
-- `prompt` and `control` put in the queue of a session. The results of the executor, of the workspace and
-- of the snapshot are arguments; so is how a report ends, with the message of its error if it fails, and the
-- clock, whose readings are numbered like the reports. The reports are kept in the order in which they
-- are made, whether or not they arrive. The deltas of a run are those that it passes on before it ends.
pub mod Ends
use opencode_master.Base.{
  ℕ, String, Option, none, some, List, [], ◌∷◌, ◌++◌, ◌==◌, if◌then◌else◌, map, template, decimal,
  is_some, length,
}
use opencode_master.Types.{Json, Fields}
use opencode_master.Journal.History.{find_field}
use opencode_master.StreamHub.{Hub, publish as publish_in_hub}
use opencode_master.Gateway.{
  GatewayMessage, Interaction, RunResult, Outcome, resulted, failed, Delta, DeltaKind, message_json,
  interaction_json,
}
use opencode_master.Worker.Executor.{SafePoint, idle, waiting_input}
use opencode_master.Worker.Runtime.{Prepared, refused, directory}

pub record Envelope : Type 0 where
  pub session_id : String
  pub turn_id : String
  pub lease_epoch : ℕ
  pub source_id : String
  pub type : String
  pub payload : Json

pub record WorkerState : Type 0 where
  pub hub : Hub
  pub reports : List Envelope

-- The turn that a run is of.
pub record Turn : Type 0 where
  pub session_id : String
  pub turn_id : String
  pub lease_epoch : ℕ

-- What is published: a type and its data.
abbrev pub Emission : Type 0
Emission = String × Json

-- What `snapshot` of the executor ends with.
pub data Snapped : Type 0 where
  no_snapshot : Snapped
  snapped : SafePoint → ℕ → Snapped
  snap_failed : String → Snapped

-- The deltas that the executor passed on before it ended, and how it ended.
pub record Executed : Type 0 where
  pub deltas : List Delta
  pub outcome : Outcome

abbrev message_of : String → Json
message_of message = Json.obj (Fields.field "message" (Json.str message) Fields.end)

abbrev delta_type : DeltaKind → String
delta_type DeltaKind.text = "session.next.text.delta"
delta_type DeltaKind.reasoning = "session.next.reasoning.delta"

abbrev delta_emission : String → Delta → Emission
delta_emission session_id delta = (
  delta_type delta.kind,
  Json.obj (
      Fields.field "sessionID" (Json.str session_id)
        (Fields.field "delta" (Json.str delta.delta) Fields.end)),
)

abbrev question_emissions : Option Interaction → List Emission
question_emissions none = []
question_emissions (some question) = ("worker.question.snapshot", interaction_json question) ∷ []

abbrev message_emission : GatewayMessage → Emission
message_emission message = ("worker.turn.message", message_json message)

abbrev result_emissions : RunResult → List Emission
result_emissions result =
    question_emissions result.interaction ++ map message_emission result.messages

abbrev last_emission : RunResult → Emission
last_emission result = (
  if is_some result.interaction then "session.waiting_input" else "session.idle",
  Json.obj Fields.end,
)

abbrev point_text : SafePoint → String
point_text idle = "idle"
point_text waiting_input = "waiting_input"

abbrev snapshot_emission : SafePoint → ℕ → Emission
snapshot_emission point at = (
  "worker.session.snapshot",
  Json.obj (
      Fields.field "safePoint" (Json.str (point_text point))
        (Fields.field "exportedAt" (Json.num at) Fields.end)),
)

abbrev pub error_emission : String → Emission
error_emission message = ("worker.execution.error", message_of message)

module _ (delivers : Envelope → Option String) (turn : Turn) (clock : ℕ → ℕ) where
  abbrev envelope_of : WorkerState → Emission → Envelope
  envelope_of st (type, payload) =
      let published =
        publish_in_hub st.hub turn.session_id type payload (clock (length st.reports)) in
      record {
        session_id = turn.session_id;
        turn_id = turn.turn_id;
        lease_epoch = turn.lease_epoch;
        source_id = template (st.hub.worker_id ∷ ":" ∷ decimal published.event.id ∷ []);
        type = type;
        payload = payload;
      }

  -- `publish`, and the message of the error that it ends with, if it does.
  unfoldable pub publish : WorkerState → Emission → WorkerState × Option String
  publish st emission = (
    record {
      hub =
          (publish_in_hub st.hub turn.session_id emission.0 emission.1
            (clock (length st.reports))).hub;
      reports = st.reports ++ envelope_of st emission ∷ [];
    },
    delivers (envelope_of st emission),
  )

  abbrev and_next :
      WorkerState × Option String
      → (WorkerState → WorkerState × Option String)
      → WorkerState × Option String
  and_next (st, none) next = next st
  and_next (st, some message) next = (st, some message)

  unfoldable pub publish_all : WorkerState → List Emission → WorkerState × Option String
  publish_all st [] = (st, none)
  publish_all st (emission ∷ emissions) =
      and_next (publish st emission) (λ after. publish_all after emissions)

  abbrev snapshot_error : WorkerState → String → WorkerState × Option String
  snapshot_error st message = publish st ("worker.snapshot.error", message_of message)

  abbrev or_error : WorkerState × Option String → WorkerState × Option String
  or_error (st, none) = (st, none)
  or_error (st, some message) = snapshot_error st message

  -- An error within it is published, and does not end the run.
  abbrev publish_snapshot : WorkerState → Snapped → WorkerState × Option String
  publish_snapshot st no_snapshot = (st, none)
  publish_snapshot st (snapped point at) = or_error (publish st (snapshot_emission point at))
  publish_snapshot st (snap_failed message) = snapshot_error st message

  -- What follows the executor: what it has thrown, or its question, its messages, a snapshot, and the
  -- event that ends the run.
  abbrev conclude : WorkerState → Outcome → Snapped → WorkerState × Option String
  conclude st (failed message) snap = (st, some message)
  conclude st (resulted result) snap =
      and_next
        (and_next (publish_all st (result_emissions result)) (λ after. publish_snapshot after snap))
        (λ after. publish after (last_emission result))

  -- An error of a delta's report ends the reading of the stream, and not the run.
  abbrev executed : WorkerState → Executed → Snapped → WorkerState × Option String
  executed st run snap =
      conclude (publish_all st (map (delta_emission turn.session_id) run.deltas)).0 run.outcome snap

  -- The `catch`; an error of its report is only logged.
  abbrev pub caught : WorkerState × Option String → WorkerState
  caught (st, none) = st
  caught (st, some message) = (publish st (error_emission message)).0

  -- The work of a prompt.
  unfoldable pub prompt_task : WorkerState → Prepared → Executed → Snapped → WorkerState
  prompt_task st (refused message) run snap = caught (st, some message)
  prompt_task st (directory path) run snap = caught (executed st run snap)

  abbrev pub resolved_emission : String → Emission
  resolved_emission interaction_id = (
    "worker.question.resolved",
    Json.obj (Fields.field "interactionID" (Json.str interaction_id) Fields.end),
  )

  -- The work of a reply to a question.
  unfoldable pub reply_task : WorkerState → String → Prepared → Executed → Snapped → WorkerState
  reply_task st interaction_id (refused message) run snap = caught (st, some message)
  reply_task st interaction_id (directory path) run snap =
      caught (
        and_next (publish st (resolved_emission interaction_id)) (λ after. executed after run snap))

-- `control`: what is no reply to a question is taken and has no effect; a reply without its question or
-- its answer is an error.
pub data Controlled : Type 0 where
  ignored invalid : Controlled
  replies : String → Json → Controlled

abbrev object_answer : String → Option Json → Controlled
object_answer id (some (Json.obj fields)) = replies id (Json.obj fields)
object_answer id _ = invalid

abbrev reply_of : Option Json → Option Json → Controlled
reply_of (some (Json.str id)) answer = object_answer id answer
reply_of _ answer = invalid

unfoldable pub control : String → Fields → Controlled
control type fields =
    if type == "question.reply"
    then reply_of (find_field "interactionID" fields) (find_field "answer" fields)
    else ignored
