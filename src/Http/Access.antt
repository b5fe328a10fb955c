-- ===== src/Http/Access.antt =====
-- src/http/server.ts: who is asking, and what they may touch. Tokens are checked through the interface
-- `Outside`, which also has what else the handlers call outside of the master.
use opencode_master.Base.{
  ℕ, String, Option, none, some, Bool, true, false, List, [], ◌∷◌, ◌&&◌, ◌||◌, not, if◌then◌else◌,
  ◌==◌, split, starts_with, template, map_some,
}
use opencode_master.Types.{SessionRow, WorkerRow, AuthContext, Role, Json, Result, returns, throws}
use opencode_master.Database.{Database}
use opencode_master.Sessions
use opencode_master.Identity.{KeyOwner, user_for_api_key}
use opencode_master.Http.{Response, Master, Action, api_error, map_error}

-- A request that the master sends to a worker: the address with the path, the credential, and the body.
pub record Call : Type 0 where
  pub url : String
  pub credential : String
  pub payload : Json

-- What the handlers rely on: the hash of API keys, tokens at a time, and the status of a worker's
-- answer, if it can be reached.
pub record Outside : Type 0 where
  pub sha256_hex : String → String
  pub issue_token : AuthContext → ℕ → String
  pub verify_token : String → ℕ → Result (Option AuthContext)
  pub send : Call → Option ℕ

abbrev pub key_context : KeyOwner → AuthContext
key_context owner = record { sub = owner.user; tenant = owner.tenant; role = Role.user }

abbrev pub is_admin : Role → Bool
is_admin Role.admin = true
is_admin _ = false

abbrev pub is_user : Role → Bool
is_user Role.user = true
is_user _ = false

abbrev pub is_worker : Role → Bool
is_worker Role.worker = true
is_worker _ = false

abbrev pub is_user_or_admin : Role → Bool
is_user_or_admin role = is_user role || is_admin role

module _ (outside : Outside) where
  -- The first two parts of the header, split at its spaces.
  abbrev bearer : List String → Option String
  bearer (scheme ∷ (token ∷ _)) =
      if scheme == "Bearer" && not (token == "") then some token else none
  bearer _ = none

  abbrev token_of : Option String → Option String
  token_of none = none
  token_of (some header) = if header == "" then none else bearer (split b' ' header)

  abbrev context_of : Database → ℕ → Option String → Result (Option AuthContext)
  context_of db now none = returns none
  context_of db now (some token) =
      if starts_with "omk_" token
      then returns (map_some key_context (user_for_api_key outside.sha256_hex db token))
      else outside.verify_token token now

  unfoldable pub authenticate : Database → ℕ → Option String → Result (Option AuthContext)
  authenticate db now header = context_of db now (token_of header)

  abbrev pub unauthorized : Response
  unauthorized = api_error 401 "UNAUTHORIZED" "missing or invalid credentials"

  -- `try … catch (error) { return mapError(error) }`.
  abbrev caught : Master × Result Response → Master × Result Response
  caught (m, returns response) = (m, returns response)
  caught (m, throws e) = (m, returns (map_error e))

  abbrev admit :
      (Role → Bool)
      → (AuthContext → Action Response)
      → Result (Option AuthContext)
      → Action Response
  admit allowed handler (throws e) m = (m, throws e)
  admit allowed handler (returns none) m = (m, returns unauthorized)
  admit allowed handler (returns (some auth)) m =
      if allowed auth.role then caught (handler auth m) else (m, returns unauthorized)

  -- The errors of `authenticate` are not caught.
  unfoldable pub guard :
      (Role → Bool) → ℕ → Option String → (AuthContext → Action Response) → Action Response
  guard allowed now header handler m = admit allowed handler (authenticate m.db now header) m

  abbrev pub as_admin : ℕ → Option String → (AuthContext → Action Response) → Action Response
  as_admin = guard is_admin

  abbrev pub as_user : ℕ → Option String → (AuthContext → Action Response) → Action Response
  as_user = guard is_user_or_admin

  abbrev matching : String → Action Response → AuthContext → Action Response
  matching id handler auth m =
      if auth.sub == id
      then handler m
      else (m, returns (api_error 403 "FORBIDDEN" "worker token does not match worker id"))

  abbrev pub as_worker : ℕ → Option String → String → Action Response → Action Response
  as_worker now header id handler = guard is_worker now header (matching id handler)

abbrev pub no_session : String → Response
no_session id = api_error 404 "SESSION_NOT_FOUND" (template ("session not found: " ∷ id ∷ []))

abbrev pub not_yours : Response
not_yours = api_error 403 "FORBIDDEN" "not your session"

-- A session that the caller may use, or the answer that refuses it.
pub data Owned : Type 0 where
  refused : Response → Owned
  owned : SessionRow → Option WorkerRow → Owned

unfoldable pub owned_session : Database → AuthContext → String → Owned
owned_session db auth id = elim (Sessions.get db id) [
  | none ↦ refused (no_session id)
  | some found ↦
      let (session, worker) = found in
      if is_user auth.role && not (session.user_id == auth.sub)
      then refused not_yours
      else owned session worker
]

-- `const owned = await this.ownedSession(…); if (owned.error) return owned.error`.
abbrev when_owned : Owned → (SessionRow → Option WorkerRow → Action Response) → Action Response
when_owned (refused response) handler m = (m, returns response)
when_owned (owned session worker) handler m = handler session worker m

abbrev pub with_session :
    AuthContext → String → (SessionRow → Option WorkerRow → Action Response) → Action Response
with_session auth id handler m = when_owned (owned_session m.db auth id) handler m
