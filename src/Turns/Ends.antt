-- ===== src/Turns/Ends.antt =====
-- src/services/turn-service.ts: a turn that has completed or failed is final.
use opencode_master.Base.{String, some, false, List, [], ◌∷◌, ◌≡◌, arith, inl, inr, find?-append}
use opencode_master.Types.{TurnRow}
use opencode_master.Database.{Database}
use opencode_master.Turns.{turn_id, is_active, new_turn, key_of}
use opencode_master.Turns.Leases.{
  Op, creates, leases, completes, fails, perform, perform_all, row_of, only_holder_writes,
}
use opencode_master.Turns.Keys.{IsSound, perform-IsSound, create_or_get-shape}

perform-over :
    (db : Database) (op : Op) (id : String) (row : TurnRow)
    → IsSound db.turns
    → row_of db id ≡ some row
    → is_active row.status ≡ false
    → row_of (perform db op) id ≡ some row
unfolding perform row_of
perform-over db (creates input fresh) id row v e over = elim (create_or_get-shape db input fresh) [
  | inl same ↦ rw same e
  | inr (_, _, _, grown) ↦
      rw grown (
        ground
          (arith, find?-append turn_id id db.turns (new_turn input fresh (key_of input fresh))))
]
perform-over db (leases k worker_id epoch now) id row v e over =
    let (held, _, _) = only_holder_writes db k worker_id epoch "" now id v.ids in
    ground (arith, held)
perform-over db (completes k worker_id epoch now) id row v e over =
    let (_, held, _) = only_holder_writes db k worker_id epoch "" now id v.ids in
    ground (arith, held)
perform-over db (fails k worker_id epoch message now) id row v e over =
    let (_, _, held) = only_holder_writes db k worker_id epoch message now id v.ids in
    ground (arith, held)

-- The row of a turn that has completed or failed is never written again, whatever creations, leases,
-- completions and failures follow, of that turn or of others. Turn ids and client keys are unique
-- at the start, and no session has two active turns.
over-final :
    (db : Database) (ops : List Op) (id : String) (row : TurnRow)
    → IsSound db.turns
    → row_of db id ≡ some row
    → is_active row.status ≡ false
    → row_of (perform_all db ops) id ≡ some row
unfolding perform_all
over-final db [] id row v e over = e
over-final db (op ∷ ops) id row v e over =
    over-final (perform db op) ops id row (perform-IsSound db op v)
      (perform-over db op id row v e over) over
