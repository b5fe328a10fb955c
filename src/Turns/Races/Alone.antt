-- ===== src/Turns/Races/Alone.antt =====
-- src/services/turn-service.ts: a call of `createOrGet` that runs alone, and two that overtake one another.
use opencode_master.Base.{step_nth, [], ◌∷◌, find?, ◌≡◌, arith, inl, inr, Option-cases, has_key}
use opencode_master.Database.{Database}
use opencode_master.Turns.{
  TurnInput, TurnFresh, create_or_get, insert_turn, key_of, is_keyed_of, is_active_of, new_turn,
  turn_id,
}
use opencode_master.Turns.Created.{get-last}
use opencode_master.Turns.Races.{steps, happen_all, step, started, ends, insert_indexed}

-- The four statements of a call with no other between them are `createOrGet`, as one operation.
pub alone :
    (db : Database) (input : TurnInput) (fresh : TurnFresh)
    → happen_all (db, started input fresh ∷ []) (steps 0 ∷ steps 0 ∷ steps 0 ∷ steps 0 ∷ []) ≡ (
      (create_or_get db input fresh).0,
      ends (started input fresh) (create_or_get db input fresh).1 ∷ [],
    )
unfolding happen_all step_nth step create_or_get insert_turn insert_indexed
alone db input fresh =
    let row = new_turn input fresh (key_of input fresh) in
    elim (Option-cases (find? (is_keyed_of input.session_id (key_of input fresh)) db.turns)) [
      | inr (_, found) ↦ ground (arith, found)
      | inl new ↦ elim (Option-cases (find? (is_active_of input.session_id) db.turns)) [
        | inr (_, busy) ↦ ground (arith, new, busy)
        | inl free ↦ elim (Option-cases (find? (has_key turn_id fresh.id) db.turns)) [
          | inr (_, taken) ↦ ground (arith, new, free, taken)
          | inl unused ↦ ground (arith, new, free, unused, get-last db row unused)
        ]
      ]
    ]
