-- ===== src/Http/Ownership.antt =====
-- src/http/server.ts: who may do what, as a policy that says for each endpoint which credentials it
-- needs and which session it touches; `guard` and `ownedSession` keep to it.
use opencode_master.Base.{ℕ, String, Option, none, some, Bool, true, false, ◌==◌, arith, ◌≡◌}
use opencode_master.Types.{AuthContext, Role, SessionRow, WorkerRow, returns}
use opencode_master.Config.{Config}
use opencode_master.Sessions
use opencode_master.Http.{Master}
use opencode_master.Http.Access.{
  Outside, authenticate, guard, owned_session, unauthorized, no_session, not_yours, is_user,
  is_admin, is_worker, is_user_or_admin,
}
use opencode_master.Http.Directory.{
  get_session, list_messages, end, rename_session, session_status, open_stream,
}
use opencode_master.Http.Prompts.{prompt, control}
use opencode_master.Http.Routes.{Endpoint, serve}

-- Whom an endpoint is for.
pub data Policy : Type 0 where
  anyone admins users workers : Policy

abbrev policy : Endpoint → Policy
policy Endpoint.health = anyone
policy Endpoint.console = anyone
policy (Endpoint.token _) = anyone
policy (Endpoint.triggers _ _) = anyone
policy (Endpoint.registration _) = admins
policy Endpoint.all_workers = admins
policy Endpoint.every_session = admins
policy Endpoint.sweeps = admins
policy (Endpoint.beats _ _) = workers
policy (Endpoint.reports _ _ _) = workers
policy _ = users

-- Whether a caller is let in; an administrator is let in as a user.
abbrev admits : (Role → Bool) → Option AuthContext → Bool
admits allowed none = false
admits allowed (some auth) = allowed auth.role

abbrev permits : Policy → Option AuthContext → Bool
permits anyone who = true
permits admins who = admits is_admin who
permits users who = admits is_user_or_admin who
permits workers who = admits is_worker who

-- The session that an endpoint is about.
abbrev session_in : Endpoint → Option String
session_in (Endpoint.one_session id) = some id
session_in (Endpoint.messages_of id) = some id
session_in (Endpoint.status_of id) = some id
session_in (Endpoint.ends id) = some id
session_in (Endpoint.stops id) = some id
session_in (Endpoint.deletes id) = some id
session_in (Endpoint.sends id _ _) = some id
session_in (Endpoint.controls id _) = some id
session_in (Endpoint.streams id _ _ _) = some id
session_in (Endpoint.renames id _) = some id
session_in _ = none

module _ (outside : Outside) (cfg : Config) (header : Option String) (now : ℕ) where
  -- A request whose credentials are missing or wrong, or whose role the policy of its endpoint does
  -- not permit, is answered 401 `UNAUTHORIZED`, and the master is as it was.
  serve-unauthorized :
      (e : Endpoint) (m : Master) (who : Option AuthContext)
      → authenticate outside m.db now header ≡ returns who
      → permits (policy e) who ≡ false
      → serve outside cfg header now e m ≡ (m, returns (unauthorized outside))
  unfolding serve guard
  serve-unauthorized (Endpoint.registration _) m none h p = rw h
  serve-unauthorized (Endpoint.registration _) m (some auth) h p = ground (arith, h, p)
  serve-unauthorized Endpoint.all_workers m none h p = rw h
  serve-unauthorized Endpoint.all_workers m (some auth) h p = ground (arith, h, p)
  serve-unauthorized Endpoint.every_session m none h p = rw h
  serve-unauthorized Endpoint.every_session m (some auth) h p = ground (arith, h, p)
  serve-unauthorized Endpoint.sweeps m none h p = rw h
  serve-unauthorized Endpoint.sweeps m (some auth) h p = ground (arith, h, p)
  serve-unauthorized (Endpoint.beats _ _) m none h p = rw h
  serve-unauthorized (Endpoint.beats _ _) m (some auth) h p = ground (arith, h, p)
  serve-unauthorized (Endpoint.reports _ _ _) m none h p = rw h
  serve-unauthorized (Endpoint.reports _ _ _) m (some auth) h p = ground (arith, h, p)
  serve-unauthorized Endpoint.me m none h p = rw h
  serve-unauthorized Endpoint.me m (some auth) h p = ground (arith, h, p)
  serve-unauthorized Endpoint.availability m none h p = rw h
  serve-unauthorized Endpoint.availability m (some auth) h p = ground (arith, h, p)
  serve-unauthorized Endpoint.node_list m none h p = rw h
  serve-unauthorized Endpoint.node_list m (some auth) h p = ground (arith, h, p)
  serve-unauthorized (Endpoint.new_session _ _) m none h p = rw h
  serve-unauthorized (Endpoint.new_session _ _) m (some auth) h p = ground (arith, h, p)
  serve-unauthorized (Endpoint.own_sessions _) m none h p = rw h
  serve-unauthorized (Endpoint.own_sessions _) m (some auth) h p = ground (arith, h, p)
  serve-unauthorized (Endpoint.new_key _ _ _) m none h p = rw h
  serve-unauthorized (Endpoint.new_key _ _ _) m (some auth) h p = ground (arith, h, p)
  serve-unauthorized (Endpoint.one_session _) m none h p = rw h
  serve-unauthorized (Endpoint.one_session _) m (some auth) h p = ground (arith, h, p)
  serve-unauthorized (Endpoint.messages_of _) m none h p = rw h
  serve-unauthorized (Endpoint.messages_of _) m (some auth) h p = ground (arith, h, p)
  serve-unauthorized (Endpoint.status_of _) m none h p = rw h
  serve-unauthorized (Endpoint.status_of _) m (some auth) h p = ground (arith, h, p)
  serve-unauthorized (Endpoint.ends _) m none h p = rw h
  serve-unauthorized (Endpoint.ends _) m (some auth) h p = ground (arith, h, p)
  serve-unauthorized (Endpoint.stops _) m none h p = rw h
  serve-unauthorized (Endpoint.stops _) m (some auth) h p = ground (arith, h, p)
  serve-unauthorized (Endpoint.deletes _) m none h p = rw h
  serve-unauthorized (Endpoint.deletes _) m (some auth) h p = ground (arith, h, p)
  serve-unauthorized (Endpoint.sends _ _ _) m none h p = rw h
  serve-unauthorized (Endpoint.sends _ _ _) m (some auth) h p = ground (arith, h, p)
  serve-unauthorized (Endpoint.controls _ _) m none h p = rw h
  serve-unauthorized (Endpoint.controls _ _) m (some auth) h p = ground (arith, h, p)
  serve-unauthorized (Endpoint.streams _ _ _ _) m none h p = rw h
  serve-unauthorized (Endpoint.streams _ _ _ _) m (some auth) h p = ground (arith, h, p)
  serve-unauthorized (Endpoint.renames _ _) m none h p = rw h
  serve-unauthorized (Endpoint.renames _ _) m (some auth) h p = ground (arith, h, p)
  serve-unauthorized Endpoint.health m who h p = ground (arith, p)
  serve-unauthorized Endpoint.console m who h p = ground (arith, p)
  serve-unauthorized (Endpoint.token _) m who h p = ground (arith, p)
  serve-unauthorized (Endpoint.triggers _ _) m who h p = ground (arith, p)

  -- A user who asks for anything about a session of another user is answered 403 `FORBIDDEN`, which
  -- says nothing of the session, and the master is as it was: nothing is renamed, ended, admitted or
  -- subscribed to.
  pub serve-not_yours :
      (e : Endpoint) (m : Master) (auth : AuthContext) (id : String) (row : SessionRow)
      (worker : Option WorkerRow)
      → session_in e ≡ some id
      → authenticate outside m.db now header ≡ returns (some auth)
      → is_user auth.role ≡ true
      → Sessions.get m.db id ≡ some (row, worker)
      → (row.user_id == auth.sub) ≡ false
      → serve outside cfg header now e m ≡ (m, returns not_yours)
  unfolding serve get_session list_messages session_status end prompt control open_stream
      rename_session owned_session guard
  serve-not_yours (Endpoint.one_session key) m auth id row worker s h u found other =
      ground (arith, s, h, u, found, other)
  serve-not_yours (Endpoint.messages_of key) m auth id row worker s h u found other =
      ground (arith, s, h, u, found, other)
  serve-not_yours (Endpoint.status_of key) m auth id row worker s h u found other =
      ground (arith, s, h, u, found, other)
  serve-not_yours (Endpoint.ends key) m auth id row worker s h u found other =
      ground (arith, s, h, u, found, other)
  serve-not_yours (Endpoint.stops key) m auth id row worker s h u found other =
      ground (arith, s, h, u, found, other)
  serve-not_yours (Endpoint.deletes key) m auth id row worker s h u found other =
      ground (arith, s, h, u, found, other)
  serve-not_yours (Endpoint.sends key _ _) m auth id row worker s h u found other =
      ground (arith, s, h, u, found, other)
  serve-not_yours (Endpoint.controls key _) m auth id row worker s h u found other =
      ground (arith, s, h, u, found, other)
  serve-not_yours (Endpoint.streams key _ _ _) m auth id row worker s h u found other =
      ground (arith, s, h, u, found, other)
  serve-not_yours (Endpoint.renames key _) m auth id row worker s h u found other =
      ground (arith, s, h, u, found, other)
  serve-not_yours _ m auth id row worker s h u found other = ground (arith, s)

  -- A user or an administrator who asks for anything about a session that is not stored is answered
  -- 404 `SESSION_NOT_FOUND`, and the master is as it was.
  serve-no_session :
      (e : Endpoint) (m : Master) (auth : AuthContext) (id : String)
      → session_in e ≡ some id
      → authenticate outside m.db now header ≡ returns (some auth)
      → is_user_or_admin auth.role ≡ true
      → Sessions.get m.db id ≡ none
      → serve outside cfg header now e m ≡ (m, returns (no_session id))
  unfolding serve get_session list_messages session_status end prompt control open_stream
      rename_session owned_session guard
  serve-no_session (Endpoint.one_session key) m auth id s h u missing =
      ground (arith, s, h, u, missing)
  serve-no_session (Endpoint.messages_of key) m auth id s h u missing =
      ground (arith, s, h, u, missing)
  serve-no_session (Endpoint.status_of key) m auth id s h u missing =
      ground (arith, s, h, u, missing)
  serve-no_session (Endpoint.ends key) m auth id s h u missing = ground (arith, s, h, u, missing)
  serve-no_session (Endpoint.stops key) m auth id s h u missing = ground (arith, s, h, u, missing)
  serve-no_session (Endpoint.deletes key) m auth id s h u missing = ground (arith, s, h, u, missing)
  serve-no_session (Endpoint.sends key _ _) m auth id s h u missing =
      ground (arith, s, h, u, missing)
  serve-no_session (Endpoint.controls key _) m auth id s h u missing =
      ground (arith, s, h, u, missing)
  serve-no_session (Endpoint.streams key _ _ _) m auth id s h u missing =
      ground (arith, s, h, u, missing)
  serve-no_session (Endpoint.renames key _) m auth id s h u missing =
      ground (arith, s, h, u, missing)
  serve-no_session _ m auth id s h u missing = ground (arith, s)
