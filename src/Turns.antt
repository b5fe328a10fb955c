-- ===== src/Turns.antt =====
-- src/services/turn-service.ts: the turns of a session, created once for each client key, and the
-- lease under which a worker runs one. New ids and the clock's readings are arguments.
pub mod Unique
pub mod Keys
pub mod Ends
pub mod Retries
pub mod Leases
pub mod Fencing
pub mod Created
pub mod Races
mod Tests
use opencode_master.Base.{
  ℕ, String, Option, none, some, Bool, true, false, List, [], ◌∷◌, ◌++◌, find?, update, has_key,
  eqb, if◌then◌else◌, ◌==◌, ◌&&◌, template, decimal, trim, map_some, select, ltb,
}
use opencode_master.Types.{
  TurnRow, TurnStatus, active_turn, stale_turn_lease, internal, Result, returns, throws,
}
use opencode_master.Database.{Database}
use opencode_master.Sessions.{get_row, is_text}

abbrev pub turn_id : TurnRow → String
turn_id row = row.id

-- `inArray(turns.status, ["pending", "leased"])`.
abbrev pub is_active : TurnStatus → Bool
is_active TurnStatus.pending = true
is_active TurnStatus.leased = true
is_active _ = false

-- `toRow` leaves out an error message that is empty and a completion time that is 0.
abbrev pub truthy_text : Option String → Option String
truthy_text none = none
truthy_text (some s) = if s == "" then none else some s

abbrev pub truthy_time : Option ℕ → Option ℕ
truthy_time none = none
truthy_time (some t) = if eqb t 0 then none else some t

abbrev pub to_row : TurnRow → TurnRow
to_row row = record row {
  error_message = truthy_text row.error_message;
  completed_at = truthy_time row.completed_at;
}

unfoldable pub get : Database → String → Option TurnRow
get db id = map_some to_row (find? (has_key turn_id id) db.turns)

abbrev pub is_active_of : String → TurnRow → Bool
is_active_of session_id row = row.session_id == session_id && is_active row.status

abbrev pub is_keyed_of : String → String → TurnRow → Bool
is_keyed_of session_id client_key row = row.session_id == session_id && row.client_key == client_key

pub record TurnInput : Type 0 where
  pub session_id : String
  pub user_id : String
  pub content : String
  pub client_key : Option String
  pub worker_id : String
  pub lease_epoch : ℕ

-- The random ids and the clock's readings of one `createOrGet`.
pub record TurnFresh : Type 0 where
  pub key_now : ℕ
  pub key_id : String
  pub id : String
  pub now : ℕ

abbrev pub generated_key : TurnInput → TurnFresh → String
generated_key input fresh =
    template ("turn:" ∷ input.session_id ∷ ":" ∷ decimal fresh.key_now ∷ ":" ∷ fresh.key_id ∷ [])

-- `input.clientKey?.trim() || …`.
abbrev pub given_key : Option String → String → String
given_key none generated = generated
given_key (some raw) generated = let key = trim raw in if key == "" then generated else key

unfoldable pub key_of : TurnInput → TurnFresh → String
key_of input fresh = given_key input.client_key (generated_key input fresh)

abbrev pub new_turn : TurnInput → TurnFresh → String → TurnRow
new_turn input fresh key = record {
  id = fresh.id;
  session_id = input.session_id;
  user_id = input.user_id;
  content = input.content;
  client_key = key;
  status = TurnStatus.pending;
  lease_epoch = input.lease_epoch;
  assigned_worker_id = input.worker_id;
  error_message = none;
  created_at = fresh.now;
  updated_at = fresh.now;
  completed_at = none;
}

-- A turn, and whether it was created.
pub record Admitted : Type 0 where
  pub turn : TurnRow
  pub created : Bool

-- An insert whose primary key is taken throws.
insert_turn : Database → TurnRow → Database × Result Admitted
insert_turn db row = elim (find? (has_key turn_id row.id) db.turns) [
  | some _ ↦ (db, throws (internal "UNIQUE constraint failed: turns.id"))
  | none ↦ (
    record db { turns = db.turns ++ row ∷ [] },
    returns (record { turn = to_row row; created = true }),
  )
]

unfoldable pub create_or_get : Database → TurnInput → TurnFresh → Database × Result Admitted
unfolding insert_turn
create_or_get db input fresh =
    let key = key_of input fresh in
    elim (find? (is_keyed_of input.session_id key) db.turns) [
      | some existing ↦ (db, returns (record { turn = to_row existing; created = false }))
      | none ↦ elim (find? (is_active_of input.session_id) db.turns) [
        | some _ ↦ (db, throws (active_turn input.session_id))
        | none ↦ insert_turn db (new_turn input fresh key)
      ]
    ]

-- The condition of `lease`, `complete` and `fail`.
abbrev pub is_held : String → String → ℕ → TurnRow → Bool
is_held id worker_id lease_epoch row =
    row.id == id
    && row.assigned_worker_id == worker_id
    && eqb row.lease_epoch lease_epoch
    && is_active row.status

-- The write that they make where the condition holds of a row, and the answer.
pub write_if_held : Database → String → String → ℕ → (TurnRow → TurnRow) → Database × Bool
write_if_held db id worker_id lease_epoch write =
    elim (find? (is_held id worker_id lease_epoch) db.turns) [
      | none ↦ (db, false)
      | some _ ↦ (record db { turns = update (has_key turn_id id) write db.turns }, true)
    ]

abbrev pub leased_at : ℕ → TurnRow → TurnRow
leased_at now row = record row { status = TurnStatus.leased; updated_at = now }

unfoldable pub lease : Database → String → String → ℕ → ℕ → Database × Bool
unfolding write_if_held
lease db id worker_id lease_epoch now = write_if_held db id worker_id lease_epoch (leased_at now)

abbrev pub completed_as_of : ℕ → TurnRow → TurnRow
completed_as_of now row = record row {
  status = TurnStatus.completed;
  updated_at = now;
  completed_at = some now;
}

unfoldable pub complete : Database → String → String → ℕ → ℕ → Database × Bool
unfolding write_if_held
complete db id worker_id lease_epoch now =
    write_if_held db id worker_id lease_epoch (completed_as_of now)

unfoldable pub complete_or_throw : Database → String → String → ℕ → ℕ → Database × Result (Unit {0})
unfolding complete
complete_or_throw db id worker_id lease_epoch now =
    let (after, done) = complete db id worker_id lease_epoch now in
    (after, if done then returns tt else throws (stale_turn_lease id))

abbrev pub failed_with : String → ℕ → TurnRow → TurnRow
failed_with message now row = record row {
  status = TurnStatus.failed;
  error_message = some message;
  updated_at = now;
}

unfoldable pub fail : Database → String → String → ℕ → String → ℕ → Database × Bool
unfolding write_if_held
fail db id worker_id lease_epoch message now =
    write_if_held db id worker_id lease_epoch (failed_with message now)

unfoldable pub is_current_lease : Database → String → String → ℕ → Bool
is_current_lease db session_id worker_id lease_epoch = elim (get_row db session_id) [
  | none ↦ false
  | some row ↦ is_text row.owner_worker_id worker_id && eqb row.lease_epoch lease_epoch
]

-- `orderBy(desc(key)).get()`: a row with the greatest key, here the first of these. SQL leaves the
-- choice among equal keys open.
abbrev pub latest_by : (TurnRow → ℕ) → List TurnRow → Option TurnRow
latest_by key [] = none
latest_by key (x ∷ xs) = elim (latest_by key xs) [
  | none ↦ some x
  | some y ↦ if ltb (key x) (key y) then some y else some x
]

unfoldable pub active : Database → String → Option TurnRow
active db session_id =
    map_some to_row (latest_by (λ t. t.updated_at) (select (is_active_of session_id) db.turns))

unfoldable pub latest : Database → String → Option TurnRow
latest db session_id =
    map_some to_row
      (latest_by (λ t. t.created_at) (select (λ t. t.session_id == session_id) db.turns))
