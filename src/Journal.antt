-- ===== src/Journal.antt =====
-- src/services/event-journal.ts: the journal of the events of sessions, and who is told of a new one.
-- A listener is named by a text. A new id and the clock's reading are arguments; the text `after` of a
-- replay is read as a number.
pub mod Appends
pub mod Replays
pub mod Races
pub mod History
mod Tests
use opencode_master.Base.{
  ℕ, String, Option, none, some, Bool, true, List, [], ◌∷◌, ◌++◌, ◌+◌, find?, select, map, ltb,
  ◌==◌, ◌&&◌, not, sort_by, max, has_key,
}
use opencode_master.Types.{EventRow, Json, Result, returns, throws, internal}
use opencode_master.Database.{Database}

-- The listeners of the sessions, in the order in which they subscribed.
pub record Subscription : Type 0 where
  pub session_id : String
  pub listener : String

pub record AppendInput : Type 0 where
  pub session_id : String
  pub tenant_id : String
  pub turn_id : String
  pub worker_id : String
  pub lease_epoch : ℕ
  pub source_id : String
  pub type : String
  pub payload : Json

abbrev pub is_from : String → String → EventRow → Bool
is_from session_id source_id row = row.session_id == session_id && row.source_id == source_id

abbrev pub is_in : String → EventRow → Bool
is_in session_id row = row.session_id == session_id

abbrev pub seq_of : EventRow → ℕ
seq_of row = row.seq

-- `orderBy(desc(seq)).get()`, as `latest?.seq ?? 0`: the greatest number, or 0.
abbrev pub latest_seq : List EventRow → ℕ
latest_seq [] = 0
latest_seq (row ∷ rows) = max row.seq (latest_seq rows)

abbrev pub new_event : AppendInput → String → ℕ → ℕ → EventRow
new_event input id seq now = record {
  id = id;
  session_id = input.session_id;
  tenant_id = input.tenant_id;
  turn_id = input.turn_id;
  worker_id = input.worker_id;
  lease_epoch = input.lease_epoch;
  seq = seq;
  source_id = input.source_id;
  type = input.type;
  payload = input.payload;
  received_at = now;
}

abbrev pub listeners_of : List Subscription → String → List String
listeners_of subscribers session_id =
    map (λ s. s.listener) (select (λ s. s.session_id == session_id) subscribers)

-- The event, and the listeners that were called with it.
pub record Appended : Type 0 where
  pub event : EventRow
  pub told : List String

abbrev pub event_id : EventRow → String
event_id row = row.id

-- An insert whose primary key is taken throws.
insert_event : Database → List Subscription → EventRow → Database × Result Appended
insert_event db subscribers row = elim (find? (has_key event_id row.id) db.session_events) [
  | some _ ↦ (db, throws (internal "UNIQUE constraint failed: session_events.id"))
  | none ↦ (
    record db { session_events = db.session_events ++ row ∷ [] },
    returns (record { event = row; told = listeners_of subscribers row.session_id }),
  )
]

unfoldable pub append :
    Database → List Subscription → AppendInput → String → ℕ → Database × Result Appended
unfolding insert_event
append db subscribers input id now =
    elim (find? (is_from input.session_id input.source_id) db.session_events) [
      | some existing ↦ (db, returns (record { event = existing; told = [] }))
      | none ↦
          let seq = latest_seq (select (is_in input.session_id) db.session_events) + 1 in
          insert_event db subscribers (new_event input id seq now)
    ]

-- `gt(seq, Number(after))`, where a number is given.
abbrev pub is_after : Option ℕ → EventRow → Bool
is_after none row = true
is_after (some seq) row = ltb seq row.seq

unfoldable pub replay : Database → String → Option ℕ → List EventRow
replay db session_id after =
    sort_by seq_of (select (λ row. is_in session_id row && is_after after row) db.session_events)

abbrev pub is_subscribed : String → String → Subscription → Bool
is_subscribed session_id listener s = s.session_id == session_id && s.listener == listener

-- A set of listeners holds each once.
unfoldable pub subscribe : List Subscription → String → String → List Subscription
subscribe subscribers session_id listener =
    elim (find? (is_subscribed session_id listener) subscribers) [
      | some _ ↦ subscribers
      | none ↦ subscribers ++ record { session_id = session_id; listener = listener } ∷ []
    ]

-- The function that `subscribe` returns.
unfoldable pub unsubscribe : List Subscription → String → String → List Subscription
unsubscribe subscribers session_id listener =
    select (λ s. not (is_subscribed session_id listener s)) subscribers
