-- ===== src/Journal/Races.antt =====
-- src/services/event-journal.ts: calls of `append` that run at the same time. A call is in one of the
-- stages between its statements: the query of its source, the query of the session's last number, and
-- the insert, which the primary key and the unique index of src/db/schema.ts on session and source may
-- refuse. A row with a number that is taken is not refused: that index is not unique.
pub mod Overtaking
use opencode_master.Base.{ℕ, String, Option, none, some, find?, select, ◌+◌, List, []}
use opencode_master.Types.{EventRow, internal, Result, returns, throws}
use opencode_master.Database.{Database}
use opencode_master.Journal.{
  AppendInput, Subscription, Appended, is_from, is_in, latest_seq, new_event, insert_event,
}

pub data Stage : Type 0 where
  looking numbering : Stage
  inserting : ℕ → Stage
  over : Result Appended → Stage

pub record Appending : Type 0 where
  pub input : AppendInput
  pub id : String
  pub now : ℕ
  pub stage : Stage

unfoldable pub insert_indexed : Database → List Subscription → EventRow → Database × Result Appended
unfolding insert_event
insert_indexed db subscribers row =
    elim (find? (is_from row.session_id row.source_id) db.session_events) [
      | some _ ↦ (
        db,
        throws (
            internal
              "UNIQUE constraint failed: session_events.session_id, session_events.source_id"),
      )
      | none ↦ insert_event db subscribers row
    ]

abbrev pub ends : Appending → Result Appended → Appending
ends call result = record call { stage = over result }

abbrev pub looked : Database → Appending → Option EventRow → Database × Appending
looked db call none = (db, record call { stage = numbering })
looked db call (some row) = (db, ends call (returns (record { event = row; told = [] })))

abbrev pub next_seq : Database → String → ℕ
next_seq db session_id = latest_seq (select (is_in session_id) db.session_events) + 1

abbrev pub inserted : Appending → Database × Result Appended → Database × Appending
inserted call (after, result) = (after, ends call result)

abbrev pub advance : List Subscription → Stage → Database → Appending → Database × Appending
advance subscribers looking db call =
    looked db call (find? (is_from call.input.session_id call.input.source_id) db.session_events)
advance subscribers numbering db call =
    (db, record call { stage = inserting (next_seq db call.input.session_id) })
advance subscribers (inserting seq) db call =
    inserted call (insert_indexed db subscribers (new_event call.input call.id seq call.now))
advance subscribers (over result) db call = (db, call)

-- One statement of a call.
unfoldable pub step : List Subscription → Database → Appending → Database × Appending
step subscribers db call = advance subscribers call.stage db call

abbrev pub started : AppendInput → String → ℕ → Appending
started input id now = record { input = input; id = id; now = now; stage = looking }
