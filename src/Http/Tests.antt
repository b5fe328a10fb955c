-- ===== src/Http/Tests.antt =====
-- src/http/server.ts, run on the sample master.
use opencode_master.Base.{
  ℕ, String, none, some, true, [], ◌≡◌, refl, text_dec, Bool-cases, trim, split, starts_with,
  decimal,
}
use opencode_master.Types.{
  WorkerStatus, TurnStatus, Role, AuthContext, Json, Fields, returns, TurnRow,
}
use opencode_master.Scheduler.{run_once}
use opencode_master.Registry
use opencode_master.Registry.{sweep, mark_all}
use opencode_master.Sessions
use opencode_master.Sessions.Samples.{sample-IsSound}
use opencode_master.Turns
use opencode_master.Turns.{is_current_lease, completed_as_of, key_of}
use opencode_master.Turns.Created.{with_turn}
use opencode_master.Turns.Leases.{row_of}
use opencode_master.Journal.{Appended, append}
use opencode_master.Gateway.{failed}
use opencode_master.Http.{Master, json, event_accepted}
use opencode_master.Http.Access.{Outside, not_yours, authenticate}
use opencode_master.Http.Workers.{
  EventBody, Event, event_of, may_report, ingest_worker_event, stale_lease,
}
use opencode_master.Http.Prompts.{proxy, PromptBody, PromptFresh, prompt, worker_failed}
use opencode_master.Http.Runs.{Run, Stamp, run_gateway_prompt}
use opencode_master.Http.Routes.{Endpoint, serve}
use opencode_master.Http.Ownership.{serve-not_yours}
use opencode_master.Http.Fencing.{ingest-ends, run_once-ingest}
use opencode_master.Http.Sending.{prompt-sends}
use opencode_master.Http.Endings.{run_gateway_prompt-IsOver, IsOver}
use opencode_master.Http.Sse.{sse_frame}
use opencode_master.Samples.{
  sample, sample_config, workers-HasUniqueKeys, open_session, worker_of, pending_turn,
}

abbrev user_named : String → AuthContext
user_named name = record { sub = name; tenant = "t"; role = Role.user }

-- A token is the name of its user, the hash of a key is the key, and no worker can be reached.
abbrev sample_outside : Outside
sample_outside = record {
  sha256_hex = λ key. key;
  issue_token = λ auth now. auth.sub;
  verify_token = λ token now. returns (some (user_named token));
  send = λ call. none;
}

abbrev master : Master
master = record { db = sample; listeners = []; aborted = []; jobs = [] }

abbrev body : PromptBody
body = record { content = some "hello"; idempotency_key = some "first" }

abbrev fresh : PromptFresh
fresh = record {
  placed_at = 50;
  turn = record { key_now = 50; key_id = "k"; id = "new"; now = 50 };
  leased_at = 51;
  failed_at = 52;
}

abbrev sending : Endpoint
sending = Endpoint.sends "s" (some body) fresh

serve-not_yours_example :
    serve sample_outside sample_config (some "Bearer mallory") 50 sending master
    ≡ (master, returns not_yours)
unfolding authenticate split starts_with text_dec Bool-cases Sessions.get
serve-not_yours_example =
    serve-not_yours sample_outside sample_config (some "Bearer mallory") 50 sending master
      (user_named "mallory") "s" open_session (Sessions.owner_of sample (some "b")) refl refl refl
      refl refl

-- The turn before is over.
abbrev idle_master : Master
idle_master = record master { db = record sample { turns = [] } }

abbrev new_turn_row : TurnRow
new_turn_row = record pending_turn {
  id = "new";
  created_at = 50;
  updated_at = 52;
  status = TurnStatus.failed;
  error_message = some "worker returned 503";
}

prompt-sends_example :
    prompt sample_outside sample_config "s" (user_named "u") (some body) fresh idle_master ≡ (
      record idle_master { db = with_turn idle_master.db new_turn_row },
      returns (worker_failed 503),
    )
unfolding text_dec Bool-cases Sessions.get trim key_of decimal proxy Registry.get
prompt-sends_example =
    prompt-sends sample_outside sample_config idle_master "s" (user_named "u") body fresh
      open_session (worker_of "b" WorkerStatus.ok (some 20)) refl refl refl refl refl refl refl refl

abbrev report : EventBody
report = record {
  session_id = some "s";
  turn_id = some "turn";
  lease_epoch = some 1;
  source_id = some "b:1";
  type = some "session.idle";
  payload = some (Json.obj Fields.end);
}

abbrev event : Event
event = record {
  session_id = "s";
  turn_id = "turn";
  lease_epoch = 1;
  source_id = "b:1";
  type = "session.idle";
  payload = Json.obj Fields.end;
}

run_once-ingest_example :
    ingest_worker_event "b"
      (some report)
      "id"
      102
      103
      (record master { db = (run_once true sample sample_config 100 101).0 })
    ≡ (record master { db = (run_once true sample sample_config 100 101).0 }, returns stale_lease)
unfolding run_once sweep mark_all text_dec Bool-cases event_of
run_once-ingest_example =
    run_once-ingest master sample_config 100 101 "b" "id" report event 102 103 sample-IsSound
      workers-HasUniqueKeys refl refl

abbrev kept : Appended
kept = record {
  event = record {
    id = "id";
    session_id = "s";
    tenant_id = "t";
    turn_id = "turn";
    worker_id = "b";
    lease_epoch = 1;
    seq = 1;
    source_id = "b:1";
    type = "session.idle";
    payload = Json.obj Fields.end;
    received_at = 102;
  };
  told = [];
}

ingest-ends_example :
    ((ingest_worker_event "b" (some report) "id" 102 103 master).1
      ≡ returns (json (event_accepted kept.event) 202))
    × (row_of (ingest_worker_event "b" (some report) "id" 102 103 master).0.db "turn"
        ≡ some (completed_as_of 103 pending_turn))
unfolding event_of may_report Sessions.get append row_of text_dec Bool-cases is_current_lease
    Turns.get
ingest-ends_example =
    ingest-ends master "b" "id" "t" 102 103 report event pending_turn kept (tt, tt) refl refl refl
      refl refl

abbrev run : Run
run = record {
  session_id = "s";
  tenant_id = "u";
  turn_id = "turn";
  worker_id = "b";
  lease_epoch = 1;
}

abbrev stamps : ℕ → Stamp
stamps n = record { time = n; random = "r"; id = decimal n; now = n }

run_gateway_prompt-IsOver_example :
    IsOver run (run_gateway_prompt run stamps [] (failed "no") 60 master).0.db.turns
run_gateway_prompt-IsOver_example =
    run_gateway_prompt-IsOver run stamps [] (failed "no") 60 master
      (record { ids = (tt, tt); keys = (tt, tt); one_active = (λ h. tt, tt) }) tt

-- A text of two lines has a line of data for each.
two_lines : sse_frame "a\nb" (some "note") ≡ "event: note\ndata: a\ndata: b\n\n"
unfolding sse_frame split text_dec Bool-cases
two_lines = refl
