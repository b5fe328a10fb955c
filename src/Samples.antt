-- ===== src/Samples.antt =====
-- A small master to run the services on: three workers, two sessions and one turn.
use opencode_master.Base.{ℕ, String, Option, none, some, [], ◌∷◌, HasUniqueKeys, text_ne, refl}
use opencode_master.Types.{
  WorkerRow, WorkerStatus, WorkerLoad, SessionRow, SessionStatus, TurnRow, TurnStatus, WorkspaceRow,
}
use opencode_master.Config.{Config}
use opencode_master.Database.{Database}
use opencode_master.Registry.{Registry, empty_load, worker_id}

abbrev pub busy_load : WorkerLoad
busy_load = record {
  cpu_pct = 90;
  mem_pct = 40;
  active_drains = 3;
  pending_steer = 1;
  pending_queue = 2;
  tool_processes = 20;
}

abbrev pub worker_of : String → WorkerStatus → Option ℕ → WorkerRow
worker_of id status beat = record {
  id = id;
  address = "http://localhost";
  region = none;
  version = none;
  config_version = none;
  status = status;
  capacity = record { max_drains = none; max_sessions = none };
  load = empty_load;
  last_heartbeat_at = beat;
  first_seen_at = 1;
}

-- Worker `a` has reported lately, `b` has not, and `c` never has.
abbrev pub three_workers : Registry
three_workers = record {
  workers =
      worker_of "a" WorkerStatus.ok (some 95)
      ∷ worker_of "b" WorkerStatus.ok (some 20)
      ∷ worker_of "c" WorkerStatus.draining none
      ∷ [];
  pending_instructions = [];
}

abbrev pub sample_config : Config
sample_config = record {
  port = 4097;
  host = "127.0.0.1";
  db_path = ":memory:";
  jwt_secret = "secret";
  jwt_ttl_seconds = 3600;
  heartbeat_timeout_ms = 30;
  lease_ttl_ms = 30;
  scheduler_interval_ms = 5;
  bootstrap_api_key = "key";
  max_sessions_per_user = 5;
  placement_candidates = 2;
  slave_spawn_cmd = none;
  worker_proxy_credential = none;
  opencode_base_url = none;
  opencode_user = none;
  opencode_model = none;
  opencode_workspace_root = none;
}

-- A session of user `u` whose worker is `b`, and one that has ended.
abbrev pub open_session : SessionRow
open_session = record {
  id = "s";
  user_id = "u";
  tenant_id = "t";
  title = "";
  workspace_id = some "w";
  directory = some "/workspace/u";
  status = SessionStatus.assigned;
  owner_worker_id = some "b";
  lease_epoch = 1;
  created_at = 2;
  updated_at = 2;
  ended_at = none;
}

abbrev pub ended_session : SessionRow
ended_session = record open_session {
  id = "e";
  status = SessionStatus.ended;
  owner_worker_id = none;
  ended_at = some 3;
}

abbrev pub pending_turn : TurnRow
pending_turn = record {
  id = "turn";
  session_id = "s";
  user_id = "u";
  content = "hello";
  client_key = "first";
  status = TurnStatus.pending;
  lease_epoch = 1;
  assigned_worker_id = "b";
  error_message = none;
  created_at = 4;
  updated_at = 4;
  completed_at = none;
}

abbrev pub sample_workspace : WorkspaceRow
sample_workspace = record {
  id = "w";
  user_id = "u";
  tenant_id = "t";
  path = "/workspace/u";
  created_at = 2;
  updated_at = 2;
}

abbrev pub sample : Database
sample = record {
  tenants = [];
  users = [];
  api_keys = [];
  registry = three_workers;
  workspaces = sample_workspace ∷ [];
  sessions = open_session ∷ ended_session ∷ [];
  turns = pending_turn ∷ [];
  session_events = [];
}

pub workers-HasUniqueKeys : HasUniqueKeys worker_id three_workers.workers
workers-HasUniqueKeys =
    ((text_ne "b" "a" refl, (text_ne "c" "a" refl, tt)), ((text_ne "c" "b" refl, tt), (tt, tt)))
