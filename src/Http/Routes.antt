-- ===== src/Http/Routes.antt =====
-- src/http/server.ts: `buildRoutes`, the routes with their guards and handlers. An endpoint is a request
-- that was routed, with the parameter of its path, its body, and what its handler reads of the clock
-- and of random texts.
pub mod Table
use opencode_master.Base.{ℕ, String, Option}
use opencode_master.Types.{AuthContext, Json}
use opencode_master.Config.{Config}
use opencode_master.Sessions.{Fresh}
use opencode_master.Http.{Response, Action, json, answer, healthy, page, identity}
use opencode_master.Http.Access.{Outside, as_admin, as_user, as_worker}
use opencode_master.Http.Accounts.{TokenBody, handle_token, create_key}
use opencode_master.Http.Workers.{
  RegisterBody, HeartbeatBody, EventBody, register_worker, heartbeat, sweep, ingest_worker_event,
}
use opencode_master.Http.Directory.{
  SessionBody, list_workers, list_all_sessions, create_session, list_sessions, get_session,
  list_messages, end, rename_session, session_status, status, nodes, open_stream, Position,
}
use opencode_master.Http.Prompts.{PromptBody, PromptFresh, prompt, control}
use opencode_master.Http.Triggers.{TriggerBody, TriggerFresh, handle_schedule_trigger}

pub data Endpoint : Type 0 where
  health console me all_workers every_session availability node_list : Endpoint
  token : Option TokenBody → Endpoint
  registration : Option RegisterBody → Endpoint
  beats : String → Option HeartbeatBody → Endpoint
  reports : String → Option EventBody → String → Endpoint
  sweeps : Endpoint
  new_session : Option SessionBody → Fresh → Endpoint
  own_sessions : Option String → Endpoint
  one_session messages_of status_of ends stops deletes : String → Endpoint
  sends : String → Option PromptBody → PromptFresh → Endpoint
  controls : String → Option Json → Endpoint
  streams : String → String → Option Position → Option Position → Endpoint
  new_key : Option (Option String) → String → String → Endpoint
  renames : String → Option (Option String) → Endpoint
  triggers : Option TriggerBody → TriggerFresh → Endpoint

module _ (outside : Outside) (cfg : Config) (header : Option String) (now : ℕ) where
  admin : (AuthContext → Action Response) → Action Response
  admin = as_admin outside now header

  user : (AuthContext → Action Response) → Action Response
  user = as_user outside now header

  worker : String → Action Response → Action Response
  worker = as_worker outside now header

  unfoldable pub serve : Endpoint → Action Response
  unfolding admin user worker
  serve health = answer (json healthy 200)
  serve console = answer (json page 200)
  serve (token body) = handle_token outside cfg body now
  serve (registration body) = admin (λ auth. register_worker outside auth body now)
  serve (beats id body) = worker id (heartbeat id body now)
  serve (reports id body event_id) = worker id (ingest_worker_event id body event_id now now)
  serve all_workers = admin (λ auth. list_workers)
  serve every_session = admin (λ auth. list_all_sessions)
  serve sweeps = admin (λ auth. sweep cfg now now)
  serve (new_session body fresh) = user (λ auth. create_session cfg auth body fresh)
  serve (own_sessions name) = user (λ auth. list_sessions auth name)
  serve (one_session id) = user (λ auth. get_session id auth)
  serve (messages_of id) = user (λ auth. list_messages id auth)
  serve (sends id body fresh) = user (λ auth. prompt outside cfg id auth body fresh)
  serve (controls id body) = user (λ auth. control outside cfg id auth body)
  serve (ends id) = user (λ auth. end cfg id auth now)
  serve (stops id) = user (λ auth. end cfg id auth now)
  serve (streams id listener last after) = user (λ auth. open_stream id auth listener last after)
  serve availability = user (λ auth. status)
  serve node_list = user (λ auth. nodes)
  serve (new_key body digits id) = user (λ auth. create_key outside cfg auth body digits id now)
  serve me = user (λ auth. answer (json (identity auth) 200))
  serve (renames id body) = user (λ auth. rename_session id auth body now)
  serve (deletes id) = user (λ auth. end cfg id auth now)
  serve (triggers body fresh) = handle_schedule_trigger outside cfg header body now fresh
  serve (status_of id) = user (λ auth. session_status id auth)
