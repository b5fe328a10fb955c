-- ===== src/Http/Triggers.antt =====
-- src/http/server.ts: `handleScheduleTrigger`, which prompts a new session of the user that a schedule names.
use opencode_master.Base.{
  ℕ, String, Option, none, some, [], ◌∷◌, if◌then◌else◌, ◌&&◌, or_else, template, decimal, ◌==◌,
  trim, ◌||◌,
}
use opencode_master.Types.{AuthContext, SessionRow, WorkerRow, TurnRow}
use opencode_master.Config.{Config}
use opencode_master.Identity.{ensure_user}
use opencode_master.Sessions
use opencode_master.Sessions.{worker_for_prompt, create, CreateInput, Fresh}
use opencode_master.Turns.{create_or_get}
use opencode_master.Http.{
  Response, Action, prompts, ◌>>◌, answer, reads, calls, writes, starts, json, api_error, read_json,
  triggered, ◌>>=◌,
}
use opencode_master.Http.Bodies.{prompt_path, prompt_body}
use opencode_master.Http.Access.{Outside, is_user, authenticate, is_admin}
use opencode_master.Http.Directory.{has_gateway, session_of}
use opencode_master.Http.Prompts.{
  PromptFresh, turn_input, lease_or_throw, job_directory, after_send, proxy, stream_path,
}

pub record TriggerBody : Type 0 where
  pub user_id : Option String
  pub tenant_id : Option String
  pub task_name : Option String
  pub prompt : Option String

pub record TriggerFresh : Type 0 where
  pub ensured_at : ℕ
  pub session : Fresh
  pub key_now : ℕ
  pub prompt : PromptFresh

-- Whom a trigger is for: the caller's own account, if it is a user's, and else the one it names.
pub record Target : Type 0 where
  pub user_id : String
  pub tenant_id : String

abbrev named_target : TriggerBody → Target
named_target body = record {
  user_id = trim (or_else body.user_id "");
  tenant_id =
      let tenant = trim (or_else body.tenant_id "") in if tenant == "" then "default" else tenant;
}

abbrev target_of : Option AuthContext → TriggerBody → Target
target_of none body = named_target body
target_of (some auth) body =
    let named = named_target body in
    if is_user auth.role
    then record { user_id = auth.sub; tenant_id = auth.tenant }
    else if is_admin auth.role && named.user_id == ""
    then record named { user_id = auth.sub }
    else named

abbrev trigger_title : String → String
trigger_title task = template ("⏰ 定时任务 · " ∷ task ∷ [])

abbrev trigger_input : Target → String → CreateInput
trigger_input target task = record {
  tenant_id = target.tenant_id;
  user_id = target.user_id;
  title = some (trigger_title task);
  directory = some (template ("/workspace/" ∷ target.user_id ∷ []));
}

module _ (outside : Outside) (cfg : Config) where
  abbrev triggered_answer : String → String → Option TurnRow → Response
  triggered_answer id worker_id turn = json (triggered id turn worker_id (stream_path id)) 202

  abbrev trigger_send :
      String → Target → String → WorkerRow → SessionRow → TurnRow → PromptFresh → Action Response
  trigger_send id target content worker row turn fresh = do
    lease_or_throw turn.id worker.id row.lease_epoch fresh.leased_at
    if has_gateway cfg
        then (starts (
              prompts id target.user_id (job_directory row id) turn worker.id row.lease_epoch
                content [])
            >> answer (triggered_answer id worker.id (some turn)))
        else after_send outside cfg turn.id worker.id row.lease_epoch fresh.failed_at
            (proxy outside cfg worker.address (prompt_path id)
              (prompt_body content (or_else row.workspace_id id) turn.id row.lease_epoch []))
            (triggered_answer id worker.id)

  abbrev trigger_turn :
      String
      → Target
      → String
      → String
      → WorkerRow
      → TriggerFresh
      → Option SessionRow
      → Action Response
  trigger_turn id target task content worker fresh none =
      answer (api_error 500 "INTERNAL" (template ("failed to load session: " ∷ id ∷ [])))
  trigger_turn id target task content worker fresh (some row) = do
    result ← calls (λ db.
        create_or_get db
          (turn_input id target.user_id content
            (some (template ("sched_" ∷ task ∷ "_" ∷ decimal fresh.key_now ∷ []))) worker row)
          fresh.prompt.turn)
    trigger_send id target content worker row result.turn fresh.prompt

  abbrev trigger_session :
      Target → String → String → TriggerFresh → SessionRow × WorkerRow → Action Response
  trigger_session target task content fresh (session, _) = do
    worker ← calls (λ db. worker_for_prompt db cfg session.id fresh.prompt.placed_at)
    row ← reads (λ db. session_of (Sessions.get db session.id))
    trigger_turn session.id target task content worker fresh row

  abbrev trigger_for : Target → String → String → TriggerFresh → Action Response
  trigger_for target task content fresh = do
    writes (λ db.
        ensure_user db target.tenant_id target.user_id none fresh.ensured_at fresh.ensured_at)
    created ← calls (λ db. create db cfg (trigger_input target task) fresh.session)
    trigger_session target task content fresh created

  abbrev trigger_target : Target → String → String → TriggerFresh → Action Response
  trigger_target target task content fresh =
      if target.user_id == ""
      then answer (api_error 400 "BAD_REQUEST" "userId required for scheduled trigger")
      else trigger_for target task content fresh

  abbrev trigger_if_named : Option AuthContext → TriggerBody → TriggerFresh → Action Response
  trigger_if_named auth body fresh =
      let task = trim (or_else body.task_name "") in
      let content = trim (or_else body.prompt "") in
      if task == "" || content == ""
      then answer (api_error 400 "BAD_REQUEST" "taskName and prompt are required")
      else trigger_target (target_of auth body) task content fresh

  abbrev authenticated : Option String → ℕ → Action (Option AuthContext)
  authenticated header now m = (m, authenticate outside m.db now header)

  -- No role is asked for, and no error is caught.
  unfoldable pub handle_schedule_trigger :
      Option String → Option TriggerBody → ℕ → TriggerFresh → Action Response
  handle_schedule_trigger header text now fresh = do
    auth ← authenticated header now
    body ← read_json text
    trigger_if_named auth body fresh
