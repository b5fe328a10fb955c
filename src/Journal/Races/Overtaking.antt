-- ===== src/Journal/Races/Overtaking.antt =====
-- src/services/event-journal.ts: two calls of `append` that overtake one another.
use opencode_master.Base.{
  ℕ, String, none, some, false, List, [], ◌∷◌, ◌++◌, ◌≡◌, ◌==◌, ◌&&◌, ◌≤◌, arith, refl, ap, ◌∙◌,
  find?, find?-append, select, has_key, step_nth, step_all, merges, All, All-through, sort_by, max,
  Option-cases, inl, inr,
}
use opencode_master.Types.{EventRow, returns}
use opencode_master.Database.{Database}
use opencode_master.Journal.{
  AppendInput, Subscription, append, insert_event, is_from, is_in, is_after, latest_seq, new_event,
  event_id, replay, listeners_of, seq_of,
}
use opencode_master.Journal.Appends.{select-grown}
use opencode_master.Journal.Races.{Appending, Stage, step, started, ends, insert_indexed, next_seq}

from-none :
    (k s : String) (xs : List EventRow) (y : EventRow)
    → find? (is_from k s) xs ≡ none
    → is_from k s y ≡ false
    → find? (is_from k s) (xs ++ y ∷ []) ≡ none
from-none k s [] y e h = ground (arith, h)
from-none k s (x ∷ xs) y e h = ground (arith, e, from-none k s xs y)

-- No event of a session has a number above the last.
none-after :
    (k : String) (n : ℕ) (xs : List EventRow)
    → latest_seq (select (is_in k) xs) ≤ n
    → select (λ row. is_in k row && is_after (some n) row) xs ≡ []
none-after k n [] h = refl
none-after k n (x ∷ xs) h = ground (arith, h, none-after k n xs)

latest_seq-append :
    (xs : List EventRow) (y : EventRow) → latest_seq (xs ++ y ∷ []) ≡ max (latest_seq xs) y.seq
latest_seq-append [] y = omega arith
latest_seq-append (x ∷ xs) y = omega (arith, latest_seq-append xs y)

-- The three statements of a call with no other between them are `append`, as one operation.
append-alone :
    (db : Database) (subscribers : List Subscription) (input : AppendInput) (id : String) (now : ℕ)
    → step_all (step subscribers) (db, started input id now ∷ []) (0 ∷ 0 ∷ 0 ∷ []) ≡ (
      (append db subscribers input id now).0,
      ends (started input id now) (append db subscribers input id now).1 ∷ [],
    )
unfolding step_all step_nth step append insert_event insert_indexed
append-alone db subscribers input id now =
    elim (Option-cases (find? (is_from input.session_id input.source_id) db.session_events)) [
      | inr (_, found) ↦ ground (arith, found)
      | inl new ↦ ground (arith, new)
    ]

-- The two queries of both calls, in any order; then each inserts.
unfoldable pub queries : List (List ℕ)
unfolding merges
queries = merges (0 ∷ 0 ∷ []) (1 ∷ 1 ∷ [])

abbrev pub inserts : List (List ℕ)
inserts = (0 ∷ 1 ∷ []) ∷ []

module _ (subscribers : List Subscription) where
  abbrev pub run : Database × List Appending → List ℕ → Database × List Appending
  run = step_all (step subscribers)

  run-append :
      (state : Database × List Appending) (xs ys : List ℕ)
      → run state (xs ++ ys) ≡ run (run state xs) ys
  unfolding step_all
  run-append state [] ys = refl
  run-append state (x ∷ xs) ys = run-append (step_nth (step subscribers) x state.0 state.1) xs ys

module _ (db : Database) (subscribers : List Subscription) (a b : AppendInput) (id other : String)
    (now later : ℕ) (same : b.session_id ≡ a.session_id)
    (new : find? (is_from a.session_id a.source_id) db.session_events ≡ none)
    (also : find? (is_from b.session_id b.source_id) db.session_events ≡ none)
    (apart : (a.source_id == b.source_id) ≡ false)
    (unused : find? (has_key event_id id) db.session_events ≡ none)
    (free : find? (has_key event_id other) db.session_events ≡ none)
    (differs : (id == other) ≡ false) where
  abbrev seq : ℕ
  seq = next_seq db a.session_id

  abbrev one : EventRow
  one = new_event a id seq now

  abbrev two : EventRow
  two = new_event b other seq later

  abbrev with_events : Database
  with_events = record db { session_events = (db.session_events ++ one ∷ []) ++ two ∷ [] }

  abbrev begun : Database × List Appending
  begun = (db, started a id now ∷ started b other later ∷ [])

  abbrev both_numbered : Database × List Appending
  both_numbered = (
    db,
    record (started a id now) { stage = Stage.inserting seq }
        ∷ record (started b other later) { stage = Stage.inserting seq }
        ∷ [],
  )

  abbrev both_stored : Database × List Appending
  both_stored = (
    with_events,
    ends (started a id now)
          (returns (record { event = one; told = listeners_of subscribers a.session_id }))
        ∷ ends (started b other later)
            (returns (record { event = two; told = listeners_of subscribers b.session_id }))
        ∷ [],
  )

  both-numbered : All (λ order. run subscribers begun order ≡ both_numbered) queries
  unfolding queries step_all step_nth step
  both-numbered = ground (arith, new, also, same, ap (λ s. next_seq db s) same)

  both-stored : All (λ order. run subscribers both_numbered order ≡ both_stored) inserts
  unfolding step_all step_nth step insert_indexed insert_event
  both-stored = ground (
    arith,
    new,
    also,
    unused,
    same,
    from-none b.session_id b.source_id db.session_events one also (ground (arith, apart)),
    find?-append event_id other db.session_events one,
    free,
    differs,
  )

  latest-stored : latest_seq (select (is_in a.session_id) with_events.session_events) ≤ seq
  latest-stored =
      let rows = db.session_events in
      let grown =
        select-grown (is_in a.session_id) (rows ++ one ∷ []) two (ground (arith, same))
        ∙ ap (λ t. t ++ two ∷ []) (select-grown (is_in a.session_id) rows one (ground arith)) in
      omega (
        arith,
        ap latest_seq grown,
        latest_seq-append (select (is_in a.session_id) rows ++ one ∷ []) two,
        latest_seq-append (select (is_in a.session_id) rows) one,
      )

  -- Two events of a session, from different sources, are stored with the same number, if the queries
  -- of both appends, in any order, come before the inserts of either, and then no replay after this
  -- number has any event: a reader that has the one, and asks for what came after it, never gets the
  -- other. Both sources are new to the session, and the ids that are drawn are unused and different.
  pub append_overtakes :
      All
        (λ asked. All (λ stored. run subscribers begun (asked ++ stored) ≡ both_stored) inserts)
        queries
      × (one.seq ≡ two.seq)
      × (replay both_stored.0 a.session_id (some one.seq) ≡ [])
  unfolding replay sort_by
  append_overtakes = (
    All-through (run subscribers) (run-append subscribers) begun both_numbered both_stored queries
        inserts both-numbered both-stored,
    refl,
    ap (sort_by seq_of) (none-after a.session_id seq with_events.session_events latest-stored),
  )
