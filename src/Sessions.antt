-- ===== src/Sessions.antt =====
-- src/services/session-service.ts: the directory of sessions, their owners, and the lease epochs. New ids and the clock's readings are arguments.
pub mod Lifecycle
pub mod Rehome
pub mod Shapes
pub mod Epochs
pub mod Samples
mod Tests
use opencode_master.Base.{
  ℕ, String, Option, none, some, Bool, true, false, not, List, [], ◌∷◌, ◌++◌, map, length, find?,
  select, update, update_each, has_key, if◌then◌else◌, ltb, leb, ◌==◌, ◌&&◌, ◌+◌, or_else, map_some,
  ◌||◌,
}
use opencode_master.Types.{
  SessionRow, SessionStatus, WorkspaceRow, WorkerRow, quota_exceeded, no_worker_available,
  session_not_found, internal, Result, returns, throws,
}
use opencode_master.Config.{Config}
use opencode_master.Database.{Database}
use opencode_master.Registry
use opencode_master.Registry.{Registry, worker_id, is_ok}
use opencode_master.Assignment.{place}
use opencode_master.Workspaces.{get_or_create}

abbrev pub session_id : SessionRow → String
session_id row = row.id

abbrev pub is_ended : SessionStatus → Bool
is_ended SessionStatus.ended = true
is_ended _ = false

-- `eq(column, value)` on a column that may be NULL.
abbrev pub is_text : Option String → String → Bool
is_text none value = false
is_text (some s) value = s == value

unfoldable pub get_row : Database → String → Option SessionRow
get_row db id = find? (has_key session_id id) db.sessions

pub record CreateInput : Type 0 where
  pub tenant_id : String
  pub user_id : String
  pub title : Option String
  pub directory : Option String

-- The ids and the clock's readings that one `create` uses.
pub record Fresh : Type 0 where
  pub workspace_id : String
  pub workspace_now : ℕ
  pub id : String
  pub now : ℕ

abbrev pub counts_for : String → SessionRow → Bool
counts_for user_id row = row.user_id == user_id && not (is_ended row.status)

abbrev pub over_quota : Database → Config → String → Bool
over_quota db cfg user_id =
    ltb 0 cfg.max_sessions_per_user
    && leb cfg.max_sessions_per_user (length (select (counts_for user_id) db.sessions))

abbrev pub new_session : CreateInput → Fresh → WorkspaceRow → WorkerRow → SessionRow
new_session input fresh workspace worker = record {
  id = fresh.id;
  user_id = input.user_id;
  tenant_id = input.tenant_id;
  title = or_else input.title "";
  workspace_id = some workspace.id;
  directory = some workspace.path;
  status = SessionStatus.assigned;
  owner_worker_id = some worker.id;
  lease_epoch = 1;
  created_at = fresh.now;
  updated_at = fresh.now;
  ended_at = none;
}

-- An insert whose primary key is taken throws.
insert_session : Database → SessionRow → Database × Result SessionRow
unfolding get_row
insert_session db row = elim (get_row db row.id) [
  | some _ ↦ (db, throws (internal "UNIQUE constraint failed: sessions.id"))
  | none ↦ (record db { sessions = db.sessions ++ row ∷ [] }, returns row)
]

abbrev with_worker :
    WorkerRow → Database × Result SessionRow → Database × Result (SessionRow × WorkerRow)
with_worker worker (db, returns session) = (db, returns (session, worker))
with_worker worker (db, throws e) = (db, throws e)

unfoldable pub create :
    Database → Config → CreateInput → Fresh → Database × Result (SessionRow × WorkerRow)
unfolding insert_session get_or_create
create db cfg input fresh =
    if over_quota db cfg input.user_id
    then (db, throws (quota_exceeded input.user_id cfg.max_sessions_per_user))
    else elim (place db.registry cfg input.user_id none) [
      | none ↦ (db, throws no_worker_available)
      | some worker ↦
          let (stored, workspace) =
            get_or_create db
              (record {
                user_id = input.user_id;
                tenant_id = input.tenant_id;
                path = input.directory;
              })
              fresh.workspace_id fresh.workspace_now in
          with_worker worker (insert_session stored (new_session input fresh workspace worker))
    ]

-- The worker of an owner column.
unfoldable pub owner_of : Database → Option String → Option WorkerRow
owner_of db none = none
owner_of db (some id) = if id == "" then none else Registry.get db.registry id

-- A session with its worker, if the worker is known.
unfoldable pub get : Database → String → Option (SessionRow × Option WorkerRow)
unfolding get_row owner_of
get db id = elim (get_row db id) [
  | none ↦ none
  | some session ↦ some (session, owner_of db session.owner_worker_id)
]

pub record ListInput : Type 0 where
  pub tenant_id : Option String
  pub user_id : Option String
  pub status : Option SessionStatus

-- A condition is made of a value that is given and not empty.
abbrev pub matches : Option String → String → Bool
matches none value = true
matches (some wanted) value = wanted == "" || value == wanted

abbrev pub status_text : SessionStatus → String
status_text SessionStatus.pending = "pending"
status_text SessionStatus.assigned = "assigned"
status_text SessionStatus.running = "running"
status_text SessionStatus.waiting_input = "waiting_input"
status_text SessionStatus.resuming = "resuming"
status_text SessionStatus.recovering = "recovering"
status_text SessionStatus.ended = "ended"

abbrev pub is_listed : ListInput → SessionRow → Bool
is_listed input row =
    matches input.tenant_id row.tenant_id
    && matches input.user_id row.user_id
    && matches (map_some status_text input.status) (status_text row.status)

insert_newest : SessionRow → List SessionRow → List SessionRow
insert_newest x [] = x ∷ []
insert_newest x (y ∷ ys) =
    let rest = insert_newest x ys in
    if leb y.updated_at x.updated_at then x ∷ (y ∷ ys) else y ∷ rest

newest_first : List SessionRow → List SessionRow
newest_first [] = []
newest_first (x ∷ xs) = insert_newest x (newest_first xs)

-- `orderBy(desc(updated_at))`; SQL leaves the order of equal times open.
unfoldable pub list : Database → ListInput → List SessionRow
unfolding newest_first insert_newest
list db input = newest_first (select (is_listed input) db.sessions)

abbrev pub reassigned : WorkerRow → SessionRow → ℕ → SessionRow → SessionRow
reassigned worker session now row = record row {
  owner_worker_id = some worker.id;
  lease_epoch = session.lease_epoch + 1;
  status = SessionStatus.assigned;
  updated_at = now;
}

abbrev pub is_well : Option WorkerRow → Bool
is_well none = false
is_well (some worker) = is_ok worker.status

move_session : Database → Config → SessionRow → ℕ → Database × Result WorkerRow
move_session db cfg session now =
    elim (place db.registry cfg session.user_id session.owner_worker_id) [
      | none ↦ (db, throws no_worker_available)
      | some worker ↦ (
        record db {
          sessions =
              update (has_key session_id session.id) (reassigned worker session now) db.sessions;
        },
        returns worker,
      )
    ]

prompt_owner : Database → Config → SessionRow → ℕ → Option WorkerRow → Database × Result WorkerRow
unfolding move_session
prompt_owner db cfg session now none = move_session db cfg session now
prompt_owner db cfg session now (some owner) =
    if is_ok owner.status then (db, returns owner) else move_session db cfg session now

unfoldable pub worker_for_prompt : Database → Config → String → ℕ → Database × Result WorkerRow
unfolding prompt_owner get_row
worker_for_prompt db cfg id now = elim (get_row db id) [
  | none ↦ (db, throws (session_not_found id))
  | some session ↦ prompt_owner db cfg session now (owner_of db session.owner_worker_id)
]

abbrev pub is_owned_by : String → SessionRow → Bool
is_owned_by worker_id row = is_text row.owner_worker_id worker_id && not (is_ended row.status)

-- What the loop of `rehomeWorkerSessions` writes for a row that it has read.
abbrev pub rehomed : Registry → Config → String → ℕ → SessionRow → SessionRow → SessionRow
rehomed r cfg lost now row stored = record stored {
  owner_worker_id = map_some worker_id (place r cfg row.user_id (some lost));
  lease_epoch = row.lease_epoch + 1;
  status = SessionStatus.recovering;
  updated_at = now;
}

unfoldable pub rehome_worker_sessions : Database → Config → String → ℕ → Database × List String
rehome_worker_sessions db cfg lost now =
    let rows = select (is_owned_by lost) db.sessions in
    (
      record db {
        sessions = update_each session_id (rehomed db.registry cfg lost now) rows db.sessions;
      },
      map session_id rows,
    )

unfoldable pub update_title : Database → String → String → ℕ → Database
update_title db id title now = record db {
  sessions =
      update (has_key session_id id) (λ row. record row { title = title; updated_at = now })
        db.sessions;
}

abbrev pub finished : ℕ → SessionRow → SessionRow
finished now row = record row {
  status = SessionStatus.ended;
  ended_at = some now;
  updated_at = now;
  owner_worker_id = none;
}

-- `end`, under a name that is not reserved.
unfoldable pub end_session : Database → String → ℕ → Database
end_session db id now = record db {
  sessions = update (has_key session_id id) (finished now) db.sessions;
}
