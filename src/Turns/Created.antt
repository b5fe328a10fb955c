-- ===== src/Turns/Created.antt =====
-- src/services/turn-service.ts: the turn that was created last, when it is leased and ends.
use opencode_master.Base.{
  find?-append, ℕ, String, none, true, List, [], ◌∷◌, ◌++◌, ◌≡◌, arith, find?, has_key, update,
  some,
}
use opencode_master.Types.{TurnRow, returns}
use opencode_master.Database.{Database}
use opencode_master.Turns
use opencode_master.Turns.{
  TurnInput, TurnFresh, create_or_get, insert_turn, key_of, is_keyed_of, is_active_of, turn_id,
  new_turn, to_row, is_held, is_active, write_if_held, lease, fail, leased_at, failed_with,
}

update-last :
    (xs : List TurnRow) (row : TurnRow) (write : TurnRow → TurnRow)
    → find? (has_key turn_id row.id) xs ≡ none
    → update (has_key turn_id row.id) write (xs ++ row ∷ []) ≡ xs ++ write row ∷ []
update-last [] row write new = ground arith
update-last (x ∷ xs) row write new = ground (arith, new, update-last xs row write)

held-last :
    (xs : List TurnRow) (row : TurnRow)
    → find? (has_key turn_id row.id) xs ≡ none
    → is_active row.status ≡ true
    → find? (is_held row.id row.assigned_worker_id row.lease_epoch) (xs ++ row ∷ []) ≡ some row
held-last [] row new live = ground (arith, live)
held-last (x ∷ xs) row new live = ground (arith, new, live, held-last xs row)

-- The table with one more turn.
abbrev pub with_turn : Database → TurnRow → Database
with_turn db row = record db { turns = db.turns ++ row ∷ [] }

write-last :
    (db : Database) (row : TurnRow) (write : TurnRow → TurnRow)
    → find? (has_key turn_id row.id) db.turns ≡ none
    → is_active row.status ≡ true
    → write_if_held (with_turn db row) row.id row.assigned_worker_id row.lease_epoch write
      ≡ (with_turn db (write row), true)
unfolding write_if_held
write-last db row write new live =
    ground (arith, held-last db.turns row new live, update-last db.turns row write new)

pub lease-last :
    (db : Database) (row : TurnRow) (now : ℕ)
    → find? (has_key turn_id row.id) db.turns ≡ none
    → is_active row.status ≡ true
    → lease (with_turn db row) row.id row.assigned_worker_id row.lease_epoch now
      ≡ (with_turn db (leased_at now row), true)
unfolding lease
lease-last db row now new live = write-last db row (leased_at now) new live

pub fail-last :
    (db : Database) (row : TurnRow) (message : String) (now : ℕ)
    → find? (has_key turn_id row.id) db.turns ≡ none
    → is_active row.status ≡ true
    → fail (with_turn db row) row.id row.assigned_worker_id row.lease_epoch message now
      ≡ (with_turn db (failed_with message now row), true)
unfolding fail
fail-last db row message now new live = write-last db row (failed_with message now) new live

pub create_or_get-new :
    (db : Database) (input : TurnInput) (fresh : TurnFresh)
    → find? (is_keyed_of input.session_id (key_of input fresh)) db.turns ≡ none
    → find? (is_active_of input.session_id) db.turns ≡ none
    → find? (has_key turn_id fresh.id) db.turns ≡ none
    → create_or_get db input fresh ≡ (
      with_turn db (new_turn input fresh (key_of input fresh)),
      returns
          (record { turn = to_row (new_turn input fresh (key_of input fresh)); created = true }),
    )
unfolding create_or_get insert_turn
create_or_get-new db input fresh keyed free new = ground (arith, keyed, free, new)

-- The turn that was created last is read back.
pub get-last :
    (db : Database) (row : TurnRow)
    → find? (has_key turn_id row.id) db.turns ≡ none
    → Turns.get (with_turn db row) row.id ≡ some (to_row row)
unfolding Turns.get
get-last db row new = ground (arith, find?-append turn_id row.id db.turns row, new)
