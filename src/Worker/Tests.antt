-- ===== src/Worker/Tests.antt =====
-- src/worker: two sessions of an actor, what the proxy takes, and a run whose first report is lost.
use opencode_master.Types.{Json, Fields, HistoryRole, HistoryItem}
use opencode_master.Storage.{has_char}
use opencode_master.Worker.Proxy.{fetch, prompts, controls}
use opencode_master.Worker.Proxy.Controls.{fetch-control}
use opencode_master.Http.Bodies.{prompt_body, history_items, control_body}
use opencode_master.Worker.Proxy.Requests.{fetch-prompt}
use opencode_master.Worker.Runs.{Envelope, WorkerState, Turn, Executed}
use opencode_master.Worker.Snapshots.{
  SessionSnapshot, printed, gives, safe_session_id, export, save, load, restore,
  parse_imported_session_id, from_bracket,
}
use opencode_master.Base.{
  Option, ◌==◌, if◌then◌else◌, trim, text_dec, Bool-cases, some, none, true, String, List, [], ◌∷◌,
  ◌++◌, ◌≡◌, refl, select,
}
use opencode_master.Gateway.{RunResult, resulted, DeltaKind}
use opencode_master.Worker.Executor.{SafePoint}
use Prim.Native.Nat.{ℕ}
use opencode_master.Worker.Actor.{Task, Actor, is_of, tail}
use opencode_master.Worker.Actor.Order.{
  Op, enqueues, settles, resumes, perform_all, tasks_of, enqueued_in, waiting, perform_all-order,
}

abbrev new_actor : Actor
new_actor = record { tails = []; active = []; generations = [] }

abbrev task_of : String → ℕ → Task
task_of session_id number = record { session_id = session_id; number = number; generation = some 0 }

abbrev ops : List Op
ops =
    enqueues (task_of "s" 1)
    ∷ enqueues (task_of "other" 2)
    ∷ enqueues (task_of "s" 3)
    ∷ settles "s" 3
    ∷ settles "s" 1
    ∷ resumes "s"
    ∷ []

perform_all-order_example :
    tasks_of "s" (perform_all new_actor ops).1 ++ waiting (tail (perform_all new_actor ops).0 "s")
    ≡ select (is_of "s") (enqueued_in ops)
perform_all-order_example = perform_all-order new_actor ops "s" (λ id. tt)

abbrev queued : List Op
queued = enqueues (task_of "s" 1) ∷ enqueues (task_of "s" 3) ∷ []

abbrev reply : RunResult
reply = record { messages = []; interaction = none; is_completed = true }

abbrev prior_item : HistoryItem
prior_item = record {
  id = none;
  role = HistoryRole.user;
  content = "hello";
  name = none;
  reasoning = none;
}

fetch-prompt_example :
    fetch (record {
      is_authorized = true;
      method = "POST";
      pathname = "/sessions/s/prompt";
      last_event_id = none;
      body = some (prompt_body "hi" "w" "t" 3 (prior_item ∷ []));
    })
    ≡ prompts (record {
      session_id = "s";
      workspace_id = some "w";
      content = "hi";
      turn_id = "t";
      lease_epoch = 3;
      history = history_items (prior_item ∷ []);
    })
unfolding trim text_dec Bool-cases
fetch-prompt_example =
    fetch-prompt "s" "hi" "w" "t" 3 (prior_item ∷ []) none (refl, tt) refl refl refl

abbrev reply_body : Fields
reply_body = Fields.field "type" (Json.str "question.reply") (
    Fields.field "data" (Json.obj (Fields.field "interactionID" (Json.str "q") Fields.end))
      Fields.end)

fetch-control_example :
    fetch (record {
      is_authorized = true;
      method = "POST";
      pathname = "/sessions/s/control";
      last_event_id = none;
      body = some (control_body (Json.obj reply_body) "w" "t" 3);
    })
    ≡ controls (record {
      session_id = "s";
      workspace_id = some "w";
      turn_id = "t";
      lease_epoch = 3;
      request = reply_body;
    })
unfolding text_dec Bool-cases
fetch-control_example =
    fetch-control reply_body "w" "t" 3 refl refl refl "s" none (refl, tt) refl refl refl refl

abbrev turn : Turn
turn = record { session_id = "s"; turn_id = "t"; lease_epoch = 3 }

-- The first report is lost.
abbrev delivers : Envelope → Option String
delivers envelope = if envelope.source_id == "w:1" then some "master is away" else none

abbrev idle_state : WorkerState
idle_state = record { hub = record { worker_id = "w"; capacity = 8; sessions = [] }; reports = [] }

-- The report of the first delta is lost, and the second delta is not read.
abbrev run : Executed
run = record {
  deltas =
      record { kind = DeltaKind.text; delta = "a" }
      ∷ (record { kind = DeltaKind.text; delta = "b" } ∷ []);
  outcome = resulted reply;
}

abbrev clock : ℕ → ℕ
clock n = n

abbrev exported : SessionSnapshot
exported = record { session_id = "s"; safe_point = SafePoint.idle; exported_at = 9; payload = "p" }

-- What was exported is restored, with the id that the import prints.
restored :
    restore
      (λ text. some (Json.obj (Fields.field "id" (Json.str "s2") Fields.end)))
      (λ payload. printed "imported {")
      (export [] "s" SafePoint.idle (printed "p") 9).0
      "s"
    ≡ gives (some (exported, "s2"))
unfolding export save load restore safe_session_id has_char text_dec Bool-cases
    parse_imported_session_id from_bracket
restored = refl
