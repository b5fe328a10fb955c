-- ===== src/Turns/Leases.antt =====
-- src/services/turn-service.ts: who may lease, complete or fail a turn, and that an end is final.
use opencode_master.Base.{
  ℕ, String, Option, none, some, Bool, false, List, [], ◌∷◌, find?, has_key, eqb, ◌≡◌, refl, arith,
  find?-update, HasUniqueKeys, IsFresh, ◌==◌, if◌then◌else◌, ◌&&◌, is_some, find?-fresh, map_some,
}
use opencode_master.Types.{TurnRow}
use opencode_master.Database.{Database}
use opencode_master.Turns.{
  turn_id, is_active, is_held, write_if_held, lease, complete, fail, create_or_get, leased_at,
  completed_as_of, failed_with, TurnInput, TurnFresh,
}

-- The row of a turn.
unfoldable pub row_of : Database → String → Option TurnRow
row_of db id = find? (has_key turn_id id) db.turns

-- The worker holds the turn: it is assigned to the worker at this epoch, and not over.
abbrev pub holds : Option TurnRow → String → ℕ → Bool
holds none worker_id lease_epoch = false
holds (some row) worker_id lease_epoch =
    row.assigned_worker_id == worker_id && eqb row.lease_epoch lease_epoch && is_active row.status

module _ (id worker_id : String) (epoch : ℕ) where
  pub is_held-none :
      (xs : List TurnRow) → IsFresh turn_id id xs → find? (is_held id worker_id epoch) xs ≡ none
  is_held-none [] _ = refl
  is_held-none (x ∷ xs) (n, r) = ground (arith, is_held-none xs r)

  is_some-held :
      (xs : List TurnRow)
      → HasUniqueKeys turn_id xs
      → is_some (find? (is_held id worker_id epoch) xs)
        ≡ holds (find? (has_key turn_id id) xs) worker_id epoch
  is_some-held [] _ = refl
  is_some-held (x ∷ xs) (n, u) =
      ground (arith, is_some-held xs u, is_held-none xs, find?-fresh turn_id id xs)

-- What `lease`, `complete` and `fail` answer, and the row that they leave.
abbrev pub Guarded :
    Database → Database × Bool → String → String → ℕ → (TurnRow → TurnRow) → String → Type 0
Guarded db result id worker_id epoch write k =
    (result.1 ≡ holds (row_of db id) worker_id epoch)
    × (row_of result.0 k ≡ (
        if holds (row_of db id) worker_id epoch && id == k
        then map_some write (row_of db k)
        else row_of db k))

write_if_held-Guarded :
    (db : Database) (id worker_id : String) (epoch : ℕ) (write : TurnRow → TurnRow)
    (keeps : (x : TurnRow) → turn_id (write x) ≡ turn_id x) (k : String)
    → HasUniqueKeys turn_id db.turns
    → Guarded db (write_if_held db id worker_id epoch write) id worker_id epoch write k
unfolding write_if_held row_of
write_if_held-Guarded db id worker_id epoch write keeps k u = ground (
  arith,
  is_some-held id worker_id epoch db.turns u,
  find?-update turn_id id k write keeps db.turns,
)

-- Where turn ids are unique, `lease`, `complete` and `fail` answer true exactly for the worker that
-- the turn, not over yet, is assigned to at the epoch
-- given, and then write this turn and no other; for anybody else they change nothing.
pub only_holder_writes :
    (db : Database) (id worker_id : String) (epoch : ℕ) (message : String) (now : ℕ) (k : String)
    → HasUniqueKeys turn_id db.turns
    → Guarded db (lease db id worker_id epoch now) id worker_id epoch (leased_at now) k
      × Guarded db (complete db id worker_id epoch now) id worker_id epoch (completed_as_of now) k
      × Guarded db
          (fail db id worker_id epoch message now)
          id
          worker_id
          epoch
          (failed_with message now)
          k
unfolding lease complete fail
only_holder_writes db id worker_id epoch message now k u = (
  write_if_held-Guarded db id worker_id epoch (leased_at now) (λ x. refl) k u,
  write_if_held-Guarded db id worker_id epoch (completed_as_of now) (λ x. refl) k u,
  write_if_held-Guarded db id worker_id epoch (failed_with message now) (λ x. refl) k u,
)

-- The operations of the service that write.
pub data Op : Type 0 where
  creates : TurnInput → TurnFresh → Op
  leases completes : String → String → ℕ → ℕ → Op
  fails : String → String → ℕ → String → ℕ → Op

unfoldable pub perform : Database → Op → Database
perform db (creates input fresh) = (create_or_get db input fresh).0
perform db (leases id worker_id epoch now) = (lease db id worker_id epoch now).0
perform db (completes id worker_id epoch now) = (complete db id worker_id epoch now).0
perform db (fails id worker_id epoch message now) = (fail db id worker_id epoch message now).0

unfoldable pub perform_all : Database → List Op → Database
perform_all db [] = db
perform_all db (op ∷ ops) = perform_all (perform db op) ops
