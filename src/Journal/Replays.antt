-- ===== src/Journal/Replays.antt =====
-- src/services/event-journal.ts: a replay is the rest of a session's events.
use opencode_master.Base.{
  ℕ, String, none, some, List, [], ◌∷◌, ◌++◌, ◌≡◌, refl, arith, length, select, drop, ◌+◌, sort_by,
  append-nil, append_assoc, subst, inl, Bool-cases, ap, ◌&&◌, ◌∙◌, sym, inr, sort_by-Numbered,
  later_than, drop-append, select-later, Numbered-drop,
}
use opencode_master.Types.{EventRow}
use opencode_master.Database.{Database}
use opencode_master.Journal.{
  is_in, is_after, seq_of, append, replay, AppendInput, Subscription, latest_seq, new_event,
}
use opencode_master.Journal.Appends.{
  IsNumbered, append-shape, append-IsNumbered, select-grown, select-other,
}

select-both :
    (k : String) (seq : ℕ) (rows : List EventRow)
    → select (λ row. is_in k row && is_after (some seq) row) rows
      ≡ select (later_than seq_of seq) (select (is_in k) rows)
select-both k seq [] = refl
select-both k seq (x ∷ rows) = ground (arith, select-both k seq rows)

select-in :
    (k : String) (rows : List EventRow)
    → select (λ row. is_in k row && is_after none row) rows ≡ select (is_in k) rows
select-in k [] = refl
select-in k (x ∷ rows) = ground (arith, select-in k rows)

-- Where the events of a session are numbered 1, 2, …, a replay of all of them has the session's
-- events in the order of the table, and a replay after a number leaves out exactly that many of them
-- at the front.
pub replay_lem :
    (db : Database) (k : String) (seq : ℕ)
    → IsNumbered db k
    → (replay db k none ≡ select (is_in k) db.session_events)
      × (replay db k (some seq) ≡ drop seq (replay db k none))
unfolding replay
replay_lem db k seq v =
    let rows = select (is_in k) db.session_events in
    let all : replay db k none ≡ rows =
      ap (sort_by seq_of) (select-in k db.session_events) ∙ sort_by-Numbered seq_of 1 rows v in
    (
      all,
      ap (sort_by seq_of) (
            select-both k seq db.session_events
            ∙ select-later seq_of 0 seq rows v
            ∙ ap (λ m. drop m rows) (omega arith))
          ∙ sort_by-Numbered seq_of (1 + seq) (drop seq rows) (Numbered-drop seq_of 1 seq rows v)
          ∙ ap (drop seq) (sym all),
    )

-- One append: its arguments but for the table.
pub record Report : Type 0 where
  pub subscribers : List Subscription
  pub input : AppendInput
  pub id : String
  pub now : ℕ

unfoldable pub append_all : Database → List Report → Database
append_all db [] = db
append_all db (r ∷ reports) = append_all (append db r.subscribers r.input r.id r.now).0 reports

append_all-IsNumbered :
    (db : Database) (reports : List Report) (k : String)
    → IsNumbered db k
    → IsNumbered (append_all db reports) k
unfolding append_all
append_all-IsNumbered db [] k v = v
append_all-IsNumbered db (r ∷ reports) k v =
    append_all-IsNumbered (append db r.subscribers r.input r.id r.now).0 reports k
      (append-IsNumbered db r.subscribers r.input r.id r.now k v)

-- The rows of a session after appends, as an extension of those before.
abbrev Extends : List EventRow → List EventRow → Type 0
Extends after before = (extra : List EventRow) × (after ≡ before ++ extra)

append-Extends :
    (db : Database) (r : Report) (k : String)
    → Extends
        (select (is_in k) (append db r.subscribers r.input r.id r.now).0.session_events)
        (select (is_in k) db.session_events)
append-Extends db r k =
    let rows = db.session_events in
    let row =
      new_event r.input r.id (latest_seq (select (is_in r.input.session_id) rows) + 1) r.now in
    elim (append-shape db r.subscribers r.input r.id r.now) [
      | inl same ↦ ([], ap (select (is_in k)) same ∙ sym (append-nil (select (is_in k) rows)))
      | inr (_, grown) ↦ elim (Bool-cases (is_in k row)) [
        | inl inside ↦
            (row ∷ [], ap (select (is_in k)) grown ∙ select-grown (is_in k) rows row inside)
        | inr outside ↦ (
          [],
          ap (select (is_in k)) grown
              ∙ select-other (is_in k) rows row outside
              ∙ sym (append-nil (select (is_in k) rows)),
        )
      ]
    ]

append_all-Extends :
    (db : Database) (reports : List Report) (k : String)
    → Extends
        (select (is_in k) (append_all db reports).session_events)
        (select (is_in k) db.session_events)
unfolding append_all
append_all-Extends db [] k = ([], sym (append-nil (select (is_in k) db.session_events)))
append_all-Extends db (r ∷ reports) k =
    let mid = (append db r.subscribers r.input r.id r.now).0 in
    let (extra, grown) = append-Extends db r k in
    let (more, all) = append_all-Extends mid reports k in
    (
      extra ++ more,
      all
          ∙ ap (λ rows. rows ++ more) grown
          ∙ append_assoc (select (is_in k) db.session_events) extra more,
    )

-- A reader that has replayed a session and asks again after the number of events that it got, once any
-- appends have happened, each as a whole, gets exactly the events that it has not seen: with those it has, they are the
-- replay of all, in order, none missing and none twice. The session's events are numbered 1, 2, …
-- at the start.
pub resume_exact :
    (db : Database) (reports : List Report) (k : String)
    → IsNumbered db k
    → let seen = replay db k none in
      let after = append_all db reports in
      replay after k none ≡ seen ++ replay after k (some (length seen))
resume_exact db reports k v =
    let after = append_all db reports in
    let seen = select (is_in k) db.session_events in
    let (extra, grown) = append_all-Extends db reports k in
    let (before, _) = replay_lem db k 0 v in
    let (all, rest) = replay_lem after k (length seen) (append_all-IsNumbered db reports k v) in
    let missed : replay after k (some (length seen)) ≡ extra =
      rest ∙ ap (drop (length seen)) (all ∙ grown) ∙ drop-append seen extra in
    subst (λ s. replay after k none ≡ s ++ replay after k (some (length s))) (sym before)
      (all ∙ grown ∙ ap (λ rows. seen ++ rows) (sym missed))
