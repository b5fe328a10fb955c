-- ===== src/Turns/Retries.antt =====
-- src/services/turn-service.ts: a prompt that is sent again with its client key.
use opencode_master.Base.{
  ℕ, String, some, Bool, false, List, [], ◌∷◌, ◌≡◌, arith, trim, find?, ◌++◌, none, true, inl, inr,
  subst, Option-cases, sym, update, if◌then◌else◌, refl, has_key,
}
use opencode_master.Types.{TurnRow, returns}
use opencode_master.Database.{Database}
use opencode_master.Turns.{
  TurnInput, TurnFresh, Admitted, create_or_get, key_of, is_keyed_of, to_row, turn_id, leased_at,
  completed_as_of, failed_with, new_turn, insert_turn, lease, complete, fail, is_active_of,
  write_if_held,
}
use opencode_master.Turns.Leases.{Op, creates, leases, completes, fails, perform, perform_all}
use opencode_master.Turns.Keys.{create_or_get-shape, write_if_held-shape}
use opencode_master.Turns.Unique.{Keeps}

-- The turn of a client key.
abbrev pub Names : List TurnRow → String → String → String → Type 0
Names turns s k id = (row : TurnRow) × (find? (is_keyed_of s k) turns ≡ some row) × (row.id ≡ id)

find?-kept :
    (s k : String) (p : TurnRow → Bool) (f : TurnRow → TurnRow) (keeps : Keeps f)
    (xs : List TurnRow) (row : TurnRow)
    → find? (is_keyed_of s k) xs ≡ some row
    → find? (is_keyed_of s k) (update p f xs) ≡ some (if p row then f row else row)
find?-kept s k p f keeps [] row e = ground arith
find?-kept s k p f keeps (x ∷ xs) row e = ground (arith, keeps x, find?-kept s k p f keeps xs row)

pub find?-grown :
    (s k : String) (xs : List TurnRow) (y row : TurnRow)
    → find? (is_keyed_of s k) xs ≡ some row
    → find? (is_keyed_of s k) (xs ++ y ∷ []) ≡ some row
find?-grown s k [] y row e = ground arith
find?-grown s k (x ∷ xs) y row e = ground (arith, find?-grown s k xs y row)

update-Names :
    (s k id : String) (p : TurnRow → Bool) (f : TurnRow → TurnRow) (xs : List TurnRow)
    → Keeps f
    → Names xs s k id
    → Names (update p f xs) s k id
update-Names s k id p f xs keeps (row, e, i) =
    (if p row then f row else row, find?-kept s k p f keeps xs row e, ground (arith, keeps row))

write_if_held-Names :
    (db : Database) (j worker_id : String) (epoch : ℕ) (write : TurnRow → TurnRow) (s k id : String)
    → Keeps write
    → Names db.turns s k id
    → Names (write_if_held db j worker_id epoch write).0.turns s k id
write_if_held-Names db j worker_id epoch write s k id keeps n =
    elim (write_if_held-shape db j worker_id epoch write) [
      | inl same ↦ subst (λ t. Names t s k id) (sym same) n
      | inr (_, _, written) ↦
          subst (λ t. Names t s k id) (sym written)
            (update-Names s k id (has_key turn_id j) write db.turns keeps n)
    ]

pub perform-Names :
    (db : Database) (op : Op) (s k id : String)
    → Names db.turns s k id
    → Names (perform db op).turns s k id
unfolding perform lease complete fail
perform-Names db (creates input fresh) s k id (row, e, i) =
    elim (create_or_get-shape db input fresh) [
      | inl same ↦ (row, rw same e, i)
      | inr (_, _, _, grown) ↦ (
        row,
        rw grown (find?-grown s k db.turns (new_turn input fresh (key_of input fresh)) row e),
        i,
      )
    ]
perform-Names db (leases j worker_id epoch now) s k id n =
    write_if_held-Names db j worker_id epoch (leased_at now) s k id (λ x. (refl, refl, refl)) n
perform-Names db (completes j worker_id epoch now) s k id n =
    write_if_held-Names db j worker_id epoch (completed_as_of now) s k id (λ x. (refl, refl, refl))
      n
perform-Names db (fails j worker_id epoch message now) s k id n =
    write_if_held-Names db j worker_id epoch (failed_with message now) s k id
      (λ x. (refl, refl, refl)) n

perform_all-Names :
    (db : Database) (ops : List Op) (s k id : String)
    → Names db.turns s k id
    → Names (perform_all db ops).turns s k id
unfolding perform_all
perform_all-Names db [] s k id n = n
perform_all-Names db (op ∷ ops) s k id n =
    perform_all-Names (perform db op) ops s k id (perform-Names db op s k id n)

-- What `create_or_get` answers for a key that has a turn.
pub found-again :
    (db : Database) (input : TurnInput) (fresh : TurnFresh) (row : TurnRow)
    → find? (is_keyed_of input.session_id (key_of input fresh)) db.turns ≡ some row
    → create_or_get db input fresh ≡ (db, returns (record { turn = to_row row; created = false }))
unfolding create_or_get insert_turn
found-again db input fresh row e = ground arith

pub find?-keyed-append :
    (s k : String) (xs : List TurnRow) (y : TurnRow)
    → find? (is_keyed_of s k) xs ≡ none
    → is_keyed_of s k y ≡ true
    → find? (is_keyed_of s k) (xs ++ y ∷ []) ≡ some y
find?-keyed-append s k [] y e h = ground arith
find?-keyed-append s k (x ∷ xs) y e h = ground (arith, find?-keyed-append s k xs y)

-- The turn that `create_or_get` answers is the one of its key.
answer-Names :
    (db : Database) (input : TurnInput) (fresh : TurnFresh) (answer : Admitted)
    → (create_or_get db input fresh).1 ≡ returns answer
    → Names
        (create_or_get db input fresh).0.turns
        input.session_id
        (key_of input fresh)
        answer.turn.id
unfolding create_or_get insert_turn
answer-Names db input fresh answer e =
    elim (Option-cases (find? (is_keyed_of input.session_id (key_of input fresh)) db.turns)) [
      | inr (row, found) ↦ (row, ground arith, ground arith)
      | inl new ↦ elim (Option-cases (find? (is_active_of input.session_id) db.turns)) [
        | inr (_, busy) ↦ ground arith
        | inl free ↦ elim (Option-cases (find? (has_key turn_id fresh.id) db.turns)) [
          | inr (_, taken) ↦ ground arith
          | inl unused ↦
              let row = new_turn input fresh (key_of input fresh) in
              (
                row,
                ground (
                  arith,
                  find?-keyed-append input.session_id (key_of input fresh) db.turns row new,
                ),
                ground arith,
              )
        ]
      ]
    ]

-- Once a prompt with a client key that is not blank has been answered with a turn, a prompt to the same
-- session with the same key is answered with this turn, as not created, and changes nothing, whatever
-- creations, leases, completions and failures lie between.
pub retry_same :
    (db : Database) (input again : TurnInput) (fresh later : TurnFresh) (raw : String)
    (answer : Admitted) (ops : List Op)
    → input.client_key ≡ some raw
    → again.client_key ≡ some raw
    → (trim raw ≡ "" → ⊥)
    → again.session_id ≡ input.session_id
    → (create_or_get db input fresh).1 ≡ returns answer
    → let after = perform_all (create_or_get db input fresh).0 ops in
      (turn : TurnRow) × (create_or_get after again later
        ≡ (after, returns (record { turn = turn; created = false })))
      × (turn.id ≡ answer.turn.id)
unfolding key_of
retry_same db input again fresh later raw answer ops given given' named same e =
    let after = perform_all (create_or_get db input fresh).0 ops in
    let keys : key_of again later ≡ key_of input fresh = ground arith in
    let (row, found, i) =
      perform_all-Names (create_or_get db input fresh).0 ops input.session_id (key_of input fresh)
        answer.turn.id (answer-Names db input fresh answer e) in
    (
      to_row row,
      found-again after again later row (
          subst (λ s. find? (is_keyed_of s (key_of again later)) after.turns ≡ some row) (sym same)
            (subst (λ k. find? (is_keyed_of input.session_id k) after.turns ≡ some row) (sym keys)
              found)),
      i,
    )
