-- ===== src/Http/Prompts.antt =====
-- src/http/server.ts: `prompt` and `control`, which send a turn to the worker of its session, or start a
-- run of the gateway.
use opencode_master.Base.{
  is_success, ℕ, String, Option, none, some, Bool, List, [], ◌∷◌, if◌then◌else◌, ◌&&◌, or_else,
  first_of_both, template, decimal, strip_end, ◌==◌, trim,
}
use opencode_master.Types.{
  AuthContext, SessionRow, WorkerRow, TurnRow, HistoryItem, stale_turn_lease,
}
use opencode_master.Config.{Config}
use opencode_master.Registry.{is_ok}
use opencode_master.Sessions
use opencode_master.Sessions.{worker_for_prompt}
use opencode_master.Turns
use opencode_master.Turns.{
  TurnInput, TurnFresh, Admitted, create_or_get, lease, fail, is_current_lease,
}
use opencode_master.Journal.History.{history, text_of, member}
use opencode_master.Http.{
  Response, Action, prompts, ◌>>◌, answer, throw, reads, calls, updates, writes, starts, json,
  api_error, admitted, accepted, Database, read_json, Json, resumes, returns, ◌>>=◌,
}
use opencode_master.Http.Bodies.{prompt_path, prompt_body, control_path, control_body}
use opencode_master.Http.Access.{Outside, no_session, with_session}
use opencode_master.Http.Directory.{given, has_gateway, session_of}

abbrev pub stream_path : String → String
stream_path id = template ("/api/v1/sessions/" ∷ id ∷ "/events" ∷ [])

-- The answer of a worker, or of the master in its place.
unfoldable pub proxy : Outside → Config → String → String → Json → ℕ
proxy outside cfg address path payload =
    if given cfg.worker_proxy_credential
    then or_else
        (outside.send (record {
          url = template (strip_end b'/' address ∷ path ∷ []);
          credential = or_else cfg.worker_proxy_credential "";
          payload = payload;
        }))
        502
    else 503

pub record PromptBody : Type 0 where
  pub content : Option String
  pub idempotency_key : Option String

pub record PromptFresh : Type 0 where
  pub placed_at : ℕ
  pub turn : TurnFresh
  pub leased_at : ℕ
  pub failed_at : ℕ

abbrev pub worker_failed : ℕ → Response
worker_failed status =
    api_error 502 "WORKER_PROMPT_FAILED" (template ("worker returned " ∷ decimal status ∷ []))

abbrev pub turn_input :
    String → String → String → Option String → WorkerRow → SessionRow → TurnInput
turn_input session_id user_id content client_key worker row = record {
  session_id = session_id;
  user_id = user_id;
  content = content;
  client_key = client_key;
  worker_id = worker.id;
  lease_epoch = row.lease_epoch;
}

-- `if (!await this.turns.lease(…)) throw new StaleTurnLeaseError(…)`.
abbrev pub lease_or_throw : String → String → ℕ → ℕ → Action (Unit {0})
lease_or_throw turn_id worker_id lease_epoch now = do
  done ← updates (λ db. lease db turn_id worker_id lease_epoch now)
  if done then answer tt else throw (stale_turn_lease turn_id)

abbrev pub job_directory : SessionRow → String → String
job_directory row id = or_else (first_of_both row.directory row.workspace_id) id

module _ (outside : Outside) (cfg : Config) where
  -- What follows a send to the worker: the turn fails with it.
  abbrev pub after_send :
      String → String → ℕ → ℕ → ℕ → (Option TurnRow → Response) → Action Response
  after_send turn_id worker_id lease_epoch now status reply =
      if is_success status
      then reads (λ db. reply (Turns.get db turn_id))
      else (writes (λ db.
            (fail db turn_id worker_id lease_epoch
              (template ("worker returned " ∷ decimal status ∷ [])) now).0)
          >> answer (worker_failed status))

  abbrev pub admitted_answer : String → Option TurnRow → Response
  admitted_answer id turn = json (admitted (stream_path id) turn) 202

  abbrev pub dispatch :
      String
      → AuthContext
      → String
      → List HistoryItem
      → WorkerRow
      → SessionRow
      → TurnRow
      → PromptFresh
      → Action Response
  dispatch id auth content prior worker row turn fresh = do
    lease_or_throw turn.id worker.id row.lease_epoch fresh.leased_at
    if has_gateway cfg
        then (starts (
              prompts id auth.sub (job_directory row id) turn worker.id row.lease_epoch content
                prior)
            >> reads (λ db. admitted_answer id (Turns.get db turn.id)))
        else after_send turn.id worker.id row.lease_epoch fresh.failed_at
            (proxy outside cfg worker.address (prompt_path id)
              (prompt_body content (or_else row.workspace_id id) turn.id row.lease_epoch prior))
            (admitted_answer id)

  abbrev dispatch_new :
      String
      → AuthContext
      → String
      → List HistoryItem
      → WorkerRow
      → SessionRow
      → Admitted
      → PromptFresh
      → Action Response
  dispatch_new id auth content prior worker row result fresh =
      if result.created
      then dispatch id auth content prior worker row result.turn fresh
      else answer (admitted_answer id (some result.turn))

  abbrev admit_turn :
      String
      → AuthContext
      → String
      → Option String
      → WorkerRow
      → PromptFresh
      → Option SessionRow
      → Action Response
  admit_turn id auth content key worker fresh none = answer (no_session id)
  admit_turn id auth content key worker fresh (some row) = do
    prior ← reads (λ db. history db id)
    result ←
        calls (λ db. create_or_get db (turn_input id auth.sub content key worker row) fresh.turn)
    dispatch_new id auth content prior worker row result fresh

  abbrev prompt_worker :
      String → AuthContext → String → Option String → PromptFresh → Action Response
  prompt_worker id auth content key fresh = do
    worker ← calls (λ db. worker_for_prompt db cfg id fresh.placed_at)
    row ← reads (λ db. session_of (Sessions.get db id))
    admit_turn id auth content key worker fresh row

  abbrev prompt_if_named : String → AuthContext → PromptBody → PromptFresh → Action Response
  prompt_if_named id auth body fresh =
      if trim (or_else body.content "") == ""
      then answer (api_error 400 "BAD_REQUEST" "content required")
      else prompt_worker id auth (or_else body.content "") body.idempotency_key fresh

  unfoldable pub prompt : String → AuthContext → Option PromptBody → PromptFresh → Action Response
  prompt id auth text fresh =
      with_session auth id
        λ row worker. do body ← read_json text; prompt_if_named id auth body fresh

  abbrev unavailable : Response
  unavailable = api_error 503 "WORKER_UNAVAILABLE" "session worker is unavailable"

  abbrev no_lease : Response
  no_lease = api_error 409 "STALE_TURN_LEASE" "no active turn for the current worker lease"

  abbrev bad_reply : Response
  bad_reply = api_error 400 "BAD_REQUEST" "question.reply requires interactionID and answer"

  abbrev object_of : Option Json → Option Json
  object_of (some (Json.obj fields)) = some (Json.obj fields)
  object_of _ = none

  abbrev null_or : Option Json → Json
  null_or none = Json.null
  null_or (some value) = value

  -- The answer to a question, for the gateway.
  abbrev resume_with :
      String → SessionRow → WorkerRow → TurnRow → Option String → Option Json → Action Response
  resume_with id row worker turn none reply = answer bad_reply
  resume_with id row worker turn (some interaction_id) none = answer bad_reply
  resume_with id row worker turn (some interaction_id) (some reply) =
      if interaction_id == ""
      then answer bad_reply
      else (starts
            (resumes id (job_directory row id) turn worker.id turn.lease_epoch interaction_id reply)
          >> answer (json accepted 202))

  abbrev control_status : ℕ → Response
  control_status status =
      if is_success status
      then json accepted 202
      else api_error 502 "WORKER_CONTROL_FAILED"
          (template ("worker returned " ∷ decimal status ∷ []))

  abbrev is_reply : Json → Bool
  is_reply body = Sessions.is_text (text_of (member "type" body)) "question.reply"

  abbrev control_turn : String → SessionRow → WorkerRow → Json → TurnRow → Action Response
  control_turn id row worker body turn =
      if has_gateway cfg && is_reply body
      then (let content = null_or (member "data" body) in
          resume_with id row worker turn (text_of (member "interactionID" content))
            (object_of (member "answer" content)))
      else answer (
          control_status (
            proxy outside cfg worker.address (control_path id)
              (control_body body (or_else row.workspace_id id) turn.id turn.lease_epoch)))

  abbrev holds_turn : Database → String → WorkerRow → TurnRow → Bool
  holds_turn db id worker turn =
      turn.assigned_worker_id == worker.id && is_current_lease db id worker.id turn.lease_epoch

  abbrev control_active : String → SessionRow → WorkerRow → Json → Option TurnRow → Action Response
  control_active id row worker body none m = (m, returns no_lease)
  control_active id row worker body (some turn) m =
      if holds_turn m.db id worker turn
      then control_turn id row worker body turn m
      else (m, returns no_lease)

  abbrev control_worker : String → SessionRow → Option Json → Option WorkerRow → Action Response
  control_worker id row text none = answer unavailable
  control_worker id row text (some worker) =
      if is_ok worker.status
      then (do
        body ← read_json text
        turn ← reads (λ db. Turns.active db id)
        control_active id row worker body turn)
      else answer unavailable

  unfoldable pub control : String → AuthContext → Option Json → Action Response
  control id auth text = with_session auth id (λ row worker. control_worker id row text worker)
