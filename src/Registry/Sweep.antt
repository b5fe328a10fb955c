-- ===== src/Registry/Sweep.antt =====
-- src/services/worker-registry.ts: what a sweep marks.
use opencode_master.Base.{
  ℕ, String, ◌≡◌, refl, arith, if◌then◌else◌, has_key, ap, ◌∙◌, update, select, map, contains, List,
  [], ◌∷◌, HasUniqueKeys, IsFresh, ◌-◌, false,
}
use opencode_master.Types.{WorkerRow}
use opencode_master.Registry.{Registry, worker_id, mark_all, sweep, marked, is_stale, is_lost}
use opencode_master.Registry.Keys.{IsKeyed}

abbrev mark_if : List String → WorkerRow → WorkerRow
mark_if ids row = if contains ids row.id then marked row else row

-- What a sweep makes of a row.
abbrev pub swept : ℕ → WorkerRow → WorkerRow
swept cutoff row = if is_lost cutoff row then marked row else row

mark_if-update :
    (id : String) (ids : List String) (table : List WorkerRow)
    → map (mark_if ids) (update (has_key worker_id id) marked table)
      ≡ map (mark_if (id ∷ ids)) table
mark_if-update id ids [] = refl
mark_if-update id ids (x ∷ table) = ground (arith, mark_if-update id ids table)

map-mark_if_nil : (table : List WorkerRow) → table ≡ map (mark_if []) table
map-mark_if_nil [] = refl
map-mark_if_nil (x ∷ table) = ap (◌∷◌ x) (map-mark_if_nil table)

mark_all-map :
    (stale table : List WorkerRow)
    → (mark_all stale table).0 ≡ map (mark_if (mark_all stale table).1) table
unfolding mark_all
mark_all-map [] table = map-mark_if_nil table
mark_all-map (row ∷ stale) table = ground (
  arith,
  mark_all-map stale table,
  mark_all-map stale (update (has_key worker_id row.id) marked table),
  mark_if-update row.id (mark_all stale (update (has_key worker_id row.id) marked table)).1 table,
)

lost_ids : ℕ → List WorkerRow → List String
lost_ids cutoff xs = map worker_id (select (is_lost cutoff) xs)

mark_all-ids :
    (cutoff : ℕ) (xs table : List WorkerRow)
    → (mark_all (select (is_stale cutoff) xs) table).1 ≡ lost_ids cutoff xs
unfolding mark_all lost_ids
mark_all-ids cutoff [] table = refl
mark_all-ids cutoff (x ∷ xs) table = ground (
  arith,
  mark_all-ids cutoff xs table,
  mark_all-ids cutoff xs (update (has_key worker_id x.id) marked table),
)

contains-fresh :
    (cutoff : ℕ) (k : String) (xs : List WorkerRow)
    → IsFresh worker_id k xs
    → contains (lost_ids cutoff xs) k ≡ false
unfolding lost_ids
contains-fresh cutoff k [] _ = refl
contains-fresh cutoff k (x ∷ xs) (n, r) = ground (arith, contains-fresh cutoff k xs r)

-- On rows other than the one that the first id names, that id changes nothing.
map-mark_if_cons :
    (id : String) (ids : List String) (xs : List WorkerRow)
    → IsFresh worker_id id xs
    → map (mark_if (id ∷ ids)) xs ≡ map (mark_if ids) xs
map-mark_if_cons id ids [] _ = refl
map-mark_if_cons id ids (x ∷ xs) (n, r) = ground (arith, map-mark_if_cons id ids xs r)

map-mark_if_lost :
    (cutoff : ℕ) (xs : List WorkerRow)
    → HasUniqueKeys worker_id xs
    → map (mark_if (lost_ids cutoff xs)) xs ≡ map (swept cutoff) xs
unfolding lost_ids
map-mark_if_lost cutoff [] _ = refl
map-mark_if_lost cutoff (x ∷ xs) (n, u) = ground (
  arith,
  map-mark_if_lost cutoff xs u,
  contains-fresh cutoff x.id xs n,
  map-mark_if_cons x.id (lost_ids cutoff xs) xs n,
)

-- Where ids are unique, a sweep marks exactly the workers whose heartbeat is missing or older than
-- the timeout and that were not yet unhealthy, changes nothing else of them or of the other
-- workers, and returns the ids of the marked ones in the table's order.
pub sweep_lem :
    (r : Registry) (timeout now : ℕ)
    → IsKeyed r
    → ((sweep r timeout now).0.workers ≡ map (swept (now - timeout)) r.workers)
      × ((sweep r timeout now).1 ≡ map worker_id (select (is_lost (now - timeout)) r.workers))
unfolding sweep lost_ids
sweep_lem r timeout now u = (
  mark_all-map (select (is_stale (now - timeout)) r.workers) r.workers
      ∙ ap (λ ids. map (mark_if ids) r.workers) (mark_all-ids (now - timeout) r.workers r.workers)
      ∙ map-mark_if_lost (now - timeout) r.workers u,
  mark_all-ids (now - timeout) r.workers r.workers,
)
