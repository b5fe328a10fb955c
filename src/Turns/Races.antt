-- ===== src/Turns/Races.antt =====
-- src/services/turn-service.ts: calls of `createOrGet` that run at the same time. A call is in one of the
-- stages between its statements, and a step is one statement: the two queries, the insert, which the
-- primary key and the unique index of src/db/schema.ts on session and client key may refuse, and the
-- query of the new row. Statements of different calls, and other operations, come in any order.
pub mod Alone
pub mod Answers
pub mod Overtaking
use Prim.Native.Nat.{ℕ}
use opencode_master.Base.{
  step_nth, String, Option, none, some, true, false, List, [], ◌∷◌, find?, template,
}
use opencode_master.Types.{TurnRow, active_turn, internal, Result, returns, throws}
use opencode_master.Database.{Database}
use opencode_master.Turns
use opencode_master.Turns.{
  TurnInput, TurnFresh, Admitted, insert_turn, key_of, is_keyed_of, is_active_of, to_row, new_turn,
}
use opencode_master.Turns.Leases.{Op, perform}

pub data Stage : Type 0 where
  looking checking inserting reading : Stage
  over : Result Admitted → Stage

pub record Running : Type 0 where
  pub input : TurnInput
  pub fresh : TurnFresh
  pub stage : Stage

abbrev pub call_key : Running → String
call_key call = key_of call.input call.fresh

abbrev pub call_turn : Running → TurnRow
call_turn call = new_turn call.input call.fresh (call_key call)

-- The insert, with both of its indexes.
unfoldable pub insert_indexed : Database → TurnRow → Database × Result Admitted
unfolding insert_turn
insert_indexed db row = elim (find? (is_keyed_of row.session_id row.client_key) db.turns) [
  | some _ ↦ (db, throws (internal "UNIQUE constraint failed: turns.session_id, turns.client_key"))
  | none ↦ insert_turn db row
]

abbrev pub inserted : Running → Database × Result Admitted → Database × Running
inserted call (after, throws e) = (after, record call { stage = over (throws e) })
inserted call (after, returns _) = (after, record call { stage = reading })

abbrev pub ends : Running → Result Admitted → Running
ends call result = record call { stage = over result }

abbrev pub looked : Database → Running → Option TurnRow → Database × Running
looked db call none = (db, record call { stage = checking })
looked db call (some row) =
    (db, ends call (returns (record { turn = to_row row; created = false })))

abbrev pub checked : Database → Running → Option TurnRow → Database × Running
checked db call none = (db, record call { stage = inserting })
checked db call (some _) = (db, ends call (throws (active_turn call.input.session_id)))

abbrev pub read_back : Database → Running → Option TurnRow → Database × Running
read_back db call none = (
  db,
  ends call (throws (internal (template ("turn missing after create: " ∷ call.fresh.id ∷ [])))),
)
read_back db call (some turn) = (db, ends call (returns (record { turn = turn; created = true })))

abbrev pub advance : Stage → Database → Running → Database × Running
advance looking db call =
    looked db call (find? (is_keyed_of call.input.session_id (call_key call)) db.turns)
advance checking db call = checked db call (find? (is_active_of call.input.session_id) db.turns)
advance inserting db call = inserted call (insert_indexed db (call_turn call))
advance reading db call = read_back db call (Turns.get db call.fresh.id)
advance (over result) db call = (db, call)

-- One statement of a call.
unfoldable pub step : Database → Running → Database × Running
step db call = advance call.stage db call

-- What happens next: a statement of a call, or another operation on the turns.
pub data Event : Type 0 where
  steps : ℕ → Event
  does : Op → Event

abbrev pub happen : Database × List Running → Event → Database × List Running
happen (db, calls) (steps n) = step_nth step n db calls
happen (db, calls) (does op) = (perform db op, calls)

unfoldable pub happen_all : Database × List Running → List Event → Database × List Running
happen_all state [] = state
happen_all state (event ∷ events) = happen_all (happen state event) events

abbrev pub started : TurnInput → TurnFresh → Running
started input fresh = record { input = input; fresh = fresh; stage = looking }
