-- ===== src/Journal/Appends.antt =====
-- src/services/event-journal.ts: an event is appended once, with the next number of its session.
use opencode_master.Base.{
  ℕ, suc, String, none, some, Bool, true, false, List, [], ◌∷◌, ◌++◌, ◌≡◌, arith, length, select,
  find?, max, ◌+◌, inl, ◌⊎◌, Option-cases, subst, sym, inr, text_dec, has_key, Numbered,
  Numbered-append,
}
use opencode_master.Types.{EventRow, returns}
use opencode_master.Database.{Database}
use opencode_master.Journal.{
  seq_of, is_in, is_from, latest_seq, append, insert_event, AppendInput, Subscription, Appended,
  new_event, event_id,
}

-- The events of a session have the numbers 1, 2, … in the order of the table.
abbrev pub IsNumbered : Database → String → Type 0
IsNumbered db session_id = Numbered seq_of 1 (select (is_in session_id) db.session_events)

pub select-grown :
    (p : EventRow → Bool) (xs : List EventRow) (y : EventRow)
    → p y ≡ true
    → select p (xs ++ y ∷ []) ≡ select p xs ++ y ∷ []
select-grown p [] y h = ground arith
select-grown p (x ∷ xs) y h = ground (arith, select-grown p xs y h)

pub select-other :
    (p : EventRow → Bool) (xs : List EventRow) (y : EventRow)
    → p y ≡ false
    → select p (xs ++ y ∷ []) ≡ select p xs
select-other p [] y h = ground arith
select-other p (x ∷ xs) y h = ground (arith, select-other p xs y h)

Numbered-latest_seq :
    (n : ℕ) (rows : List EventRow)
    → Numbered seq_of (suc n) rows
    → max n (latest_seq rows) ≡ n + length rows
Numbered-latest_seq n [] _ = omega arith
Numbered-latest_seq n (row ∷ rows) (e, a) = omega (arith, e, Numbered-latest_seq (suc n) rows a)

-- What an append does to the table.
pub append-shape :
    (db : Database) (subscribers : List Subscription) (input : AppendInput) (id : String) (now : ℕ)
    → ((append db subscribers input id now).0.session_events ≡ db.session_events)
      ⊎ ((find? (is_from input.session_id input.source_id) db.session_events ≡ none)
          × ((append db subscribers input id now).0.session_events
              ≡ db.session_events
                ++ new_event input id
                    (latest_seq (select (is_in input.session_id) db.session_events) + 1)
                    now
                  ∷ []))
unfolding append insert_event
append-shape db subscribers input id now =
    elim (Option-cases (find? (is_from input.session_id input.source_id) db.session_events)) [
      | inr (row, found) ↦ inl (ground arith)
      | inl new ↦ elim (Option-cases (find? (has_key event_id id) db.session_events)) [
        | inr (_, taken) ↦ inl (ground arith)
        | inl free ↦ inr (new, ground arith)
      ]
    ]

-- Where the events of a session are numbered 1, 2, … in the order of the table, an append to this or
-- another session keeps them so.
pub append-IsNumbered :
    (db : Database) (subscribers : List Subscription) (input : AppendInput) (id : String) (now : ℕ)
    (k : String)
    → IsNumbered db k
    → IsNumbered (append db subscribers input id now).0 k
append-IsNumbered db subscribers input id now k v =
    elim (append-shape db subscribers input id now) [
      | inl same ↦ subst (λ rows. Numbered seq_of 1 (select (is_in k) rows)) (sym same) v
      | inr (_, grown) ↦
          let rows = db.session_events in
          let seq = latest_seq (select (is_in input.session_id) rows) + 1 in
          let row = new_event input id seq now in
          subst (λ table. Numbered seq_of 1 (select (is_in k) table)) (sym grown)
            (elim (text_dec input.session_id k) [
              | yes same ↦
                  subst (Numbered seq_of 1) (sym (select-grown (is_in k) rows row (ground arith))) (
                    Numbered-append seq_of 1 (select (is_in k) rows) row v (
                      subst
                        (λ s.
                          latest_seq (select (is_in s) rows) + 1
                          ≡ 1 + length (select (is_in k) rows))
                        (sym same)
                        (omega (arith, Numbered-latest_seq 0 (select (is_in k) rows) v))))
              | no other ↦
                  subst (Numbered seq_of 1) (sym (select-other (is_in k) rows row (ground arith))) v
            ])
    ]

find?-grown :
    (p : EventRow → Bool) (xs : List EventRow) (y : EventRow)
    → find? p xs ≡ none
    → p y ≡ true
    → find? p (xs ++ y ∷ []) ≡ some y
find?-grown p [] y e h = ground arith
find?-grown p (x ∷ xs) y e h = ground (arith, find?-grown p xs y)

-- An event that is reported again, with the same source id for the same session, is answered with the
-- event that was stored for it, is not stored again, and nobody is told.
pub append_again :
    (db : Database) (subscribers later : List Subscription) (input again : AppendInput)
    (id id' : String) (now now' : ℕ) (first : Appended)
    → (append db subscribers input id now).1 ≡ returns first
    → again.session_id ≡ input.session_id
    → again.source_id ≡ input.source_id
    → let after = (append db subscribers input id now).0 in
      append after later again id' now'
      ≡ (after, returns (record { event = first.event; told = [] }))
unfolding append insert_event
append_again db subscribers later input again id id' now now' first e same source =
    let p = is_from input.session_id input.source_id in
    let seq = latest_seq (select (is_in input.session_id) db.session_events) + 1 in
    elim (Option-cases (find? p db.session_events)) [
      | inr (row, found) ↦ ground arith
      | inl new ↦ elim (Option-cases (find? (has_key event_id id) db.session_events)) [
        | inr (_, taken) ↦ ground arith
        | inl free ↦
            let row = new_event input id seq now in
            ground (arith, find?-grown p db.session_events row new)
      ]
    ]

pub append-turns :
    (db : Database) (listeners : List Subscription) (input : AppendInput) (id : String) (now : ℕ)
    → (append db listeners input id now).0.turns ≡ db.turns
unfolding append insert_event
append-turns db listeners input id now =
    elim (Option-cases (find? (is_from input.session_id input.source_id) db.session_events)) [
      | inr (_, found) ↦ ground arith
      | inl new ↦ elim (Option-cases (find? (has_key event_id id) db.session_events)) [
        | inl unused ↦ ground arith
        | inr (_, taken) ↦ ground arith
      ]
    ]
