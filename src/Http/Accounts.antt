-- ===== src/Http/Accounts.antt =====
-- src/http/server.ts: `handleToken` and `createApiKey`.
use opencode_master.Base.{ℕ, String, Option, none, some, if◌then◌else◌, ◌==◌, or_else}
use opencode_master.Types.{AuthContext, Role}
use opencode_master.Config.{Config}
use opencode_master.Sessions.{is_text}
use opencode_master.Identity.{KeyOwner, ensure_user, user_for_api_key, create_api_key}
use opencode_master.Http.{
  Response, Action, answer, reads, calls, writes, read_json, json, api_error, token_issued,
  key_created, ◌>>=◌, ◌>>◌,
}
use opencode_master.Http.Access.{Outside, key_context, is_user}

pub record TokenBody : Type 0 where
  pub api_key : Option String
  pub tenant : Option String
  pub user : Option String
  pub role : Option String
  pub email : Option String

abbrev role_named : Option String → Role
role_named role =
    if is_text role "worker"
    then Role.worker
    else if is_text role "user"
    then Role.user
    else Role.admin

module _ (outside : Outside) (cfg : Config) where
  abbrev token_answer : AuthContext → ℕ → Response
  token_answer auth now = json (token_issued (outside.issue_token auth now) auth) 200

  abbrev bootstrap_context : TokenBody → AuthContext
  bootstrap_context body = record {
    sub = or_else body.user "admin";
    tenant = or_else body.tenant "default";
    role = role_named body.role;
  }

  abbrev owner_answer : Option KeyOwner → ℕ → Response
  owner_answer none now = api_error 401 "UNAUTHORIZED" "invalid api key"
  owner_answer (some owner) now = token_answer (key_context owner) now

  abbrev bootstrap : TokenBody → ℕ → Action Response
  bootstrap body now = do
    let auth = bootstrap_context body
    writes (λ db. ensure_user db auth.tenant auth.sub body.email now now)
    answer (token_answer auth now)

  abbrev token_for : TokenBody → String → ℕ → Action Response
  token_for body key now =
      if key == cfg.bootstrap_api_key
      then bootstrap body now
      else reads (λ db. owner_answer (user_for_api_key outside.sha256_hex db key) now)

  -- An empty key is refused before it is compared.
  abbrev token_if_named : TokenBody → String → ℕ → Action Response
  token_if_named body key now =
      if key == ""
      then answer (api_error 400 "BAD_REQUEST" "apiKey required")
      else token_for body key now

  unfoldable pub handle_token : Option TokenBody → ℕ → Action Response
  handle_token text now = do
    body ← read_json text
    token_if_named body (or_else body.api_key "") now

  abbrev key_for : AuthContext → Option (Option String) → String → String → ℕ → Action Response
  key_for auth text digits id now = do
    label ← read_json text
    raw ← calls (λ db. create_api_key outside.sha256_hex db auth.sub label digits id now)
    answer (json (key_created raw) 201)

  -- The random digits of a key and its id.
  unfoldable pub create_key :
      AuthContext → Option (Option String) → String → String → ℕ → Action Response
  create_key auth text digits id now =
      if is_user auth.role
      then key_for auth text digits id now
      else answer (api_error 403 "FORBIDDEN" "only users can create API keys")
