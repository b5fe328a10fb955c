-- ===== src/Http/Fencing.antt =====
-- src/http/server.ts: what a worker's events may change. A worker that lost its lease changes nothing.
use opencode_master.Base.{
  ℕ, String, Option, none, some, true, false, arith, contains, ◌≡◌, ◌⊎◌, inl, Option-cases, inr,
  Bool-cases, refl, find?, HasUniqueKeys, if◌then◌else◌, has_key, not, ◌==◌, subst, sym, ap, ◌∙◌,
}
use opencode_master.Types.{returns}
use opencode_master.Config.{Config}
use opencode_master.Database.{Database}
use opencode_master.Registry.Keys.{IsKeyed}
use opencode_master.Sessions.Epochs.{IsSound}
use opencode_master.Scheduler.{run_once}
use opencode_master.Scheduler.Rounds.{run_once_fences}
use opencode_master.Sessions
use opencode_master.Journal.Appends.{append-turns}
use opencode_master.Turns
use opencode_master.Turns.{is_current_lease, is_active, completed_as_of, failed_with, turn_id}
use opencode_master.Turns.Leases.{row_of, only_holder_writes}
use opencode_master.Journal.{append, Appended}
use opencode_master.Http.{Master, TurnRow, json, event_accepted}
use opencode_master.Http.Workers.{
  EventBody, Event, event_of, may_report, ingest_worker_event, stale_lease, fits, settle,
  failure_message, tenant_of, appended_event,
}

module _ (m : Master) (worker_id id : String) (now later : ℕ) where
  -- A worker's report with a complete event that it may not report, since the turn is not its own or
  -- its lease of the session is not current, is answered 409 `STALE_LEASE`, and the master is as it
  -- was: no event is appended, and the turn does not end.
  ingest-stale :
      (body : EventBody) (event : Event)
      → event_of body ≡ some event
      → may_report m.db worker_id event ≡ false
      → ingest_worker_event worker_id (some body) id now later m ≡ (m, returns stale_lease)
  unfolding ingest_worker_event
  ingest-stale body event h stale = ground (arith, h, stale)

  -- A worker's report changes the master only if it has a complete event of a turn that is its own, by
  -- a lease of the session that is current.
  pub ingest-only_current :
      (text : Option EventBody)
      → ((ingest_worker_event worker_id text id now later m).0 ≡ m)
        ⊎ ((body : EventBody) × (event : Event) × (text ≡ some body)
            × (event_of body ≡ some event)
            × (may_report m.db worker_id event ≡ true))
  unfolding ingest_worker_event
  ingest-only_current none = inl refl
  ingest-only_current (some body) = elim (Option-cases (event_of body)) [
    | inl h ↦ inl (ground (arith, h))
    | inr (event, h) ↦ elim (Bool-cases (may_report m.db worker_id event)) [
      | inl allowed ↦ inr (body, event, refl, h, allowed)
      | inr denied ↦ inl (ground (arith, h, denied))
    ]
  ]

-- What a report does to the row of its turn: `session.idle` completes it and
-- `worker.execution.error` fails it, unless it is over already, and others leave it.
abbrev ended_by : Event → ℕ → TurnRow → TurnRow
ended_by event now row =
    if not (is_active row.status)
    then row
    else if event.type == "session.idle"
    then completed_as_of now row
    else if event.type == "worker.execution.error"
    then failed_with (failure_message event.payload) now row
    else row

settle-row :
    (db : Database) (worker_id : String) (event : Event) (now : ℕ) (row : TurnRow)
    → HasUniqueKeys turn_id db.turns
    → row_of db event.turn_id ≡ some row
    → fits worker_id event row ≡ true
    → row_of (settle db worker_id event now) event.turn_id ≡ some (ended_by event now row)
settle-row db worker_id event now row u found h =
    let (_, completes, fails) =
      only_holder_writes db event.turn_id worker_id event.lease_epoch
        (failure_message event.payload) now event.turn_id u in
    ground (arith, completes.1, fails.1, found)

no-lease :
    (db : Database) (worker_id : String) (event : Event)
    → is_current_lease db event.session_id worker_id event.lease_epoch ≡ false
    → may_report db worker_id event ≡ false
unfolding may_report
no-lease db worker_id event h = elim (Option-cases (Turns.get db event.turn_id)) [
  | inl missing ↦ ground (arith, missing)
  | inr (turn, found) ↦ ground (arith, found, h)
]

-- To the state that a round of the scheduler leaves, a worker that the round found lost can report
-- nothing: its reports with a complete event are answered 409 `STALE_LEASE`, whichever session, turn
-- and epoch they name, and the state stays as it is. Before the round, session and worker ids are
-- unique, and no ended session has an owner.
pub run_once-ingest :
    (m : Master) (cfg : Config) (now later : ℕ) (worker_id id : String) (body : EventBody)
    (event : Event) (at after : ℕ)
    → IsSound m.db
    → IsKeyed m.db.registry
    → contains (run_once true m.db cfg now later).1.unhealthy_workers worker_id ≡ true
    → event_of body ≡ some event
    → ingest_worker_event worker_id
        (some body)
        id
        at
        after
        (record m { db = (run_once true m.db cfg now later).0 })
      ≡ (record m { db = (run_once true m.db cfg now later).0 }, returns stale_lease)
run_once-ingest m cfg now later worker_id id body event at after v u lost h =
    ingest-stale (record m { db = (run_once true m.db cfg now later).0 }) worker_id id at after body
      event h
      (no-lease (run_once true m.db cfg now later).0 worker_id event
        (run_once_fences m.db cfg now later worker_id event.session_id event.lease_epoch v u lost))

ingest-taken :
    (m : Master) (worker_id id tenant_id : String) (now later : ℕ) (body : EventBody)
    (event : Event) (kept : Appended)
    → event_of body ≡ some event
    → may_report m.db worker_id event ≡ true
    → tenant_of (Sessions.get m.db event.session_id) ≡ some tenant_id
    → (append m.db m.listeners (appended_event event worker_id tenant_id) id now).1 ≡ returns kept
    → ingest_worker_event worker_id (some body) id now later m ≡ (
      record m {
        db =
            settle
              (append m.db m.listeners (appended_event event worker_id tenant_id) id now).0
              worker_id
              event
              later;
      },
      returns (json (event_accepted kept.event) 202),
    )
unfolding ingest_worker_event
ingest-taken m worker_id id tenant_id now later body event kept h allowed found taken =
    ground (arith, h, allowed, found, taken)

allowed-fits :
    (db : Database) (worker_id : String) (event : Event) (row : TurnRow)
    → may_report db worker_id event ≡ true
    → row_of db event.turn_id ≡ some row
    → fits worker_id event row ≡ true
unfolding may_report row_of Turns.get
allowed-fits db worker_id event row allowed there = ground (arith, allowed, there)

-- Where turn ids are unique, a report of a worker that may report it, of a session that is stored, is
-- answered 202 if the journal takes its event, and then the row of its turn, if it was not over, is
-- completed by `session.idle`, failed by `worker.execution.error`, and left by any other event.
pub ingest-ends :
    (m : Master) (worker_id id tenant_id : String) (now later : ℕ) (body : EventBody)
    (event : Event) (row : TurnRow) (kept : Appended)
    → HasUniqueKeys turn_id m.db.turns
    → event_of body ≡ some event
    → may_report m.db worker_id event ≡ true
    → tenant_of (Sessions.get m.db event.session_id) ≡ some tenant_id
    → (append m.db m.listeners (appended_event event worker_id tenant_id) id now).1 ≡ returns kept
    → row_of m.db event.turn_id ≡ some row
    → ((ingest_worker_event worker_id (some body) id now later m).1
        ≡ returns (json (event_accepted kept.event) 202))
      × (row_of (ingest_worker_event worker_id (some body) id now later m).0.db event.turn_id
          ≡ some (ended_by event later row))
unfolding row_of
ingest-ends m worker_id id tenant_id now later body event row kept u h allowed found taken there =
    let input = appended_event event worker_id tenant_id in
    let same : (append m.db m.listeners input id now).0.turns ≡ m.db.turns =
      append-turns m.db m.listeners input id now in
    let mine : fits worker_id event row ≡ true =
      allowed-fits m.db worker_id event row allowed there in
    let ended =
      settle-row (append m.db m.listeners input id now).0 worker_id event later row
        (subst (HasUniqueKeys turn_id) (sym same) u)
        (ap (find? (has_key turn_id event.turn_id)) same ∙ there) mine in
    let done =
      ingest-taken m worker_id id tenant_id now later body event kept h allowed found taken in
    (ap (λ r. r.1) done, ap (λ r. row_of r.0.db event.turn_id) done ∙ ended)
