-- ===== src/Http/Runs.antt =====
-- src/http/server.ts: `runGatewayPrompt` and `runGatewayResume`, which take the outcome of a run of the
-- gateway into the journal and end the turn. The outcome is an argument: the deltas that the run
-- reports, and its result or the message of the error that it throws.
use opencode_master.Base.{
  ℕ, suc, String, none, some, List, [], ◌∷◌, template, decimal, map, length, ◌+◌,
}
use opencode_master.Types.{Json, Fields, Error, internal, Result, returns, throws}
use opencode_master.Turns.{complete, fail}
use opencode_master.Journal.{AppendInput, append}
use opencode_master.Gateway.{
  Outcome, resulted, failed, RunResult, GatewayMessage, Interaction, Delta, DeltaKind, message_json,
  interaction_json,
}
use opencode_master.Http.{Master, Action, stored, writes, ◌>>=◌, ◌>>◌}

-- The readings of the clock and the random texts of one `emit`.
pub record Stamp : Type 0 where
  pub time : ℕ
  pub random : String
  pub id : String
  pub now : ℕ

pub record Run : Type 0 where
  pub session_id : String
  pub tenant_id : String
  pub turn_id : String
  pub worker_id : String
  pub lease_epoch : ℕ

pub record Emission : Type 0 where
  pub type : String
  pub payload : Json

abbrev pub event_input : Run → Stamp → Emission → AppendInput
event_input run stamp e = record {
  session_id = run.session_id;
  tenant_id = run.tenant_id;
  turn_id = run.turn_id;
  worker_id = run.worker_id;
  lease_epoch = run.lease_epoch;
  source_id =
      template (run.worker_id ∷ ":" ∷ e.type ∷ ":" ∷ decimal stamp.time ∷ ":" ∷ stamp.random ∷ []);
  type = e.type;
  payload = e.payload;
}

abbrev pub forget {ℓ} : {A : Type ℓ} → Master × Result A → Master × Result (Unit {0})
forget (m, returns _) = (m, returns tt)
forget (m, throws e) = (m, throws e)

abbrev pub emit : Run → Stamp → Emission → Action (Unit {0})
emit run stamp e m =
    forget (stored m (append m.db m.listeners (event_input run stamp e) stamp.id stamp.now))

-- The stamps are numbered; `first` is the number of the next.
unfoldable pub emit_all : Run → (ℕ → Stamp) → ℕ → List Emission → Action ℕ
emit_all run stamps first [] m = (m, returns first)
emit_all run stamps first (e ∷ es) m =
    let (after, done) = emit run (stamps first) e m in
    let rest = emit_all run stamps (suc first) es after in
    elim done [ returns _ ↦ rest | throws error ↦ (after, throws error) ]

abbrev pub delta_emission : Run → Delta → Emission
delta_emission run d = record {
  type = elim d.kind [
    | DeltaKind.reasoning ↦ "session.next.reasoning.delta"
    | DeltaKind.text ↦ "session.next.text.delta"
  ];
  payload = Json.obj (
      Fields.field "sessionID" (Json.str run.session_id)
        (Fields.field "delta" (Json.str d.delta) Fields.end));
}

abbrev pub message_emission : GatewayMessage → Emission
message_emission message = record { type = "worker.turn.message"; payload = message_json message }

abbrev snapshot_emission : Interaction → Emission
snapshot_emission interaction = record {
  type = "worker.question.snapshot";
  payload = interaction_json interaction;
}

abbrev pub bare_emission : String → Emission
bare_emission type = record { type = type; payload = Json.obj Fields.end }

abbrev pub error_emission : String → Emission
error_emission message = record {
  type = "worker.execution.error";
  payload = Json.obj (Fields.field "message" (Json.str message) Fields.end);
}

-- An error while a delta is written ends the reading of the stream, and not the run. The stamps of the
-- deltas are used then too.
abbrev pub quietly : ℕ → Master × Result ℕ → Master × Result ℕ
quietly first (m, returns next) = (m, returns next)
quietly first (m, throws _) = (m, returns first)

abbrev pub emit_deltas : Run → (ℕ → Stamp) → ℕ → List Delta → Action ℕ
emit_deltas run stamps first deltas m =
    quietly (first + length deltas) (emit_all run stamps first (map (delta_emission run) deltas) m)

-- What is done with a result: it waits for the user, or the turn is complete.
abbrev pub paused : Run → (ℕ → Stamp) → ℕ → List GatewayMessage → Interaction → Action (Unit {0})
paused run stamps first messages interaction = do
  next ← emit_all run stamps first (snapshot_emission interaction ∷ map message_emission messages)
  emit run (stamps next) (bare_emission "session.waiting_input")

abbrev pub ran : Run → (ℕ → Stamp) → ℕ → List GatewayMessage → ℕ → Action (Unit {0})
ran run stamps first messages now = do
  next ← emit_all run stamps first (map message_emission messages)
  writes (λ db. (complete db run.turn_id run.worker_id run.lease_epoch now).0)
  emit run (stamps next) (bare_emission "session.idle")

abbrev pub take_result : Run → (ℕ → Stamp) → ℕ → RunResult → ℕ → Action (Unit {0})
take_result run stamps first result now = elim result.interaction [
  | some interaction ↦ paused run stamps first result.messages interaction
  | none ↦ ran run stamps first result.messages now
]

abbrev pub give_up : Run → Stamp → String → ℕ → Action (Unit {0})
give_up run stamp message now = do
  writes (λ db. (fail db run.turn_id run.worker_id run.lease_epoch message now).0)
  emit run stamp (error_emission message)

abbrev pub message_of : Error → String
message_of (internal message) = message
message_of _ = ""

-- `catch (error)`.
abbrev pub or_give_up : Run → Stamp → ℕ → Master × Result (Unit {0}) → Master × Result (Unit {0})
or_give_up run stamp now (m, returns _) = (m, returns tt)
or_give_up run stamp now (m, throws e) = give_up run stamp (message_of e) now m

abbrev pub taken : Run → (ℕ → Stamp) → ℕ → Outcome → ℕ → Action (Unit {0})
taken run stamps first (failed message) now m = give_up run (stamps first) message now m
taken run stamps first (resulted result) now m =
    or_give_up run (stamps 0) now (take_result run stamps first result now m)

-- The stamp 0 is that of an error that is caught, and the others are used in order.
unfoldable pub run_gateway_prompt : Run → (ℕ → Stamp) → List Delta → Outcome → ℕ → Action (Unit {0})
run_gateway_prompt run stamps deltas outcome now = do
  next ← emit_deltas run stamps 1 deltas
  taken run stamps next outcome now

abbrev pub resolved_emission : String → Emission
resolved_emission interaction_id = record {
  type = "worker.question.resolved";
  payload = Json.obj (Fields.field "interactionID" (Json.str interaction_id) Fields.end);
}

abbrev pub resumed :
    Run
    → (ℕ → Stamp)
    → List Delta
    → Outcome
    → ℕ
    → Master × Result (Unit {0})
    → Master × Result (Unit {0})
resumed run stamps deltas outcome now (m, throws e) = give_up run (stamps 0) (message_of e) now m
resumed run stamps deltas outcome now (m, returns _) =
    (do next ← emit_deltas run stamps 2 deltas; taken run stamps next outcome now) m

unfoldable pub run_gateway_resume :
    Run → String → (ℕ → Stamp) → List Delta → Outcome → ℕ → Action (Unit {0})
run_gateway_resume run interaction_id stamps deltas outcome now m =
    resumed run stamps deltas outcome now (emit run (stamps 1) (resolved_emission interaction_id) m)
