-- ===== src/Config.antt =====
-- src/config.ts: the configuration read from the environment.
use opencode_master.Base.{
  ℕ, String, Option, none, some, List, ◌∷◌, ◌*◌, ◌==◌, ◌||◌, if◌then◌else◌, or_else, split,
}

pub record Config : Type 0 where
  pub port : ℕ
  pub host : String
  pub db_path : String
  pub jwt_secret : String
  pub jwt_ttl_seconds : ℕ
  pub heartbeat_timeout_ms : ℕ
  pub lease_ttl_ms : ℕ
  pub scheduler_interval_ms : ℕ
  pub bootstrap_api_key : String
  pub max_sessions_per_user : ℕ
  pub placement_candidates : ℕ
  pub slave_spawn_cmd : Option (List String)
  pub worker_proxy_credential : Option String
  pub opencode_base_url : Option String
  pub opencode_user : Option String
  pub opencode_model : Option (String × String)
  pub opencode_workspace_root : Option String

-- `Number` is a parameter, with `none` where it gives no finite number. The numbers of a configuration
-- are whole and not negative.
abbrev pub num : (String → Option ℕ) → Option String → ℕ → ℕ
num number none fallback = fallback
num number (some raw) fallback = if raw == "" then fallback else or_else (number raw) fallback

-- The first two parts of a model's name.
abbrev pub model_of : List String → Option (String × String)
model_of (provider ∷ (id ∷ _)) = if provider == "" || id == "" then none else some (provider, id)
model_of _ = none

unfoldable pub parse_model : Option String → Option (String × String)
parse_model none = none
parse_model (some raw) = if raw == "" then none else model_of (split b'/' raw)

-- A command that is given is parsed as JSON; `none` is an error of `JSON.parse`.
abbrev pub command_of :
    (String → Option (List String)) → Option String → Option (Option (List String))
command_of parse none = some none
command_of parse (some raw) =
    if raw == ""
    then some none
    else elim (parse raw) [ none ↦ none | some command ↦ some (some command) ]

module _ (number : String → Option ℕ) (parse : String → Option (List String))
    (env : String → Option String) where
  abbrev with_command : Option (List String) → Config
  with_command command = record {
    port = num number (env "OPENCODE_MASTER_PORT") 4097;
    host = or_else (env "OPENCODE_MASTER_HOST") "0.0.0.0";
    db_path = or_else (env "OPENCODE_MASTER_DB") "./data/master.db";
    jwt_secret = or_else (env "OPENCODE_MASTER_JWT_SECRET") "dev-secret-change-me";
    jwt_ttl_seconds = num number (env "OPENCODE_MASTER_JWT_TTL") (8 * 60 * 60);
    heartbeat_timeout_ms = num number (env "OPENCODE_MASTER_HEARTBEAT_TIMEOUT_MS") 15000;
    lease_ttl_ms = num number (env "OPENCODE_MASTER_LEASE_TTL_MS") 60000;
    scheduler_interval_ms = num number (env "OPENCODE_MASTER_SCHEDULER_INTERVAL_MS") 5000;
    bootstrap_api_key = or_else (env "OPENCODE_MASTER_BOOTSTRAP_KEY") "dev-admin-key";
    max_sessions_per_user = num number (env "OPENCODE_MASTER_MAX_SESSIONS_PER_USER") 0;
    placement_candidates = num number (env "OPENCODE_MASTER_PLACEMENT_CANDIDATES") 3;
    slave_spawn_cmd = command;
    worker_proxy_credential =
        some (or_else (env "OPENCODE_WORKER_PROXY_CREDENTIAL") "dev-proxy-key");
    opencode_base_url = env "OPENCODE_MASTER_OPENCODE_URL";
    opencode_user = env "OPENCODE_MASTER_OPENCODE_USER";
    opencode_model = parse_model (env "OPENCODE_MASTER_OPENCODE_MODEL");
    opencode_workspace_root = env "OPENCODE_MASTER_WORKSPACE_ROOT";
  }

  -- `none` where it throws; the warning about the default secret is left out.
  unfoldable pub load_config : Option Config
  load_config = elim (command_of parse (env "OPENCODE_MASTER_SLAVE_SPAWN_CMD")) [
    | none ↦ none
    | some command ↦ some (with_command command)
  ]
