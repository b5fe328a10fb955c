-- ===== src/Registry/Keys.antt =====
-- src/services/worker-registry.ts: worker ids stay unique, and what a registration stores.
use opencode_master.Base.{
  ◌-◌, ℕ, String, Option, none, some, ◌≡◌, refl, arith, ◌==◌, if◌then◌else◌, has_key, find?-update,
  find?-append, HasUniqueKeys, HasUniqueKeys-update, HasUniqueKeys-append, List, [], ◌∷◌, update,
  select,
}
use opencode_master.Types.{WorkerRow, WorkerStatus, WorkerLoad, returns}
use opencode_master.Registry.{
  Registry, RegisterInput, worker_id, get, register, refreshed, new_worker, heartbeat, set_status,
  mark_all, sweep, marked, beaten, is_stale,
}

abbrev pub IsKeyed : Registry → Type 0
IsKeyed r = HasUniqueKeys worker_id r.workers

-- The row that a registration leaves for its worker.
abbrev pub registered : RegisterInput → ℕ → Option WorkerRow → WorkerRow
registered input now (some existing) = refreshed input now existing
registered input now none = new_worker input now

-- A registration never throws: it reports the worker that it names, new or refreshed, and stores
-- exactly that one; every other worker stays as it was.
pub register-get :
    (r : Registry) (input : RegisterInput) (now : ℕ) (k : String)
    → ((register r input now).1 ≡ returns (registered input now (get r input.id)))
      × (get (register r input now).0 k
          ≡ (if input.id == k then some (registered input now (get r input.id)) else get r k))
unfolding register
register-get r input now k = ground (
  arith,
  find?-update worker_id input.id k (refreshed input now) (λ x. refl) r.workers,
  find?-update worker_id input.id input.id (refreshed input now) (λ x. refl) r.workers,
  find?-append worker_id k r.workers (new_worker input now),
  find?-append worker_id input.id r.workers (new_worker input now),
)

register-IsKeyed :
    (r : Registry) (input : RegisterInput) (now : ℕ) → IsKeyed r → IsKeyed (register r input now).0
unfolding register
register-IsKeyed r input now u = ground (
  arith,
  HasUniqueKeys-update worker_id (has_key worker_id input.id) (refreshed input now) (λ x. refl)
      r.workers u,
  HasUniqueKeys-append worker_id r.workers (new_worker input now) u,
)

pub heartbeat-IsKeyed :
    (r : Registry) (id : String) (load : WorkerLoad) (version : Option String) (now : ℕ)
    → IsKeyed r
    → IsKeyed (heartbeat r id load version now).0
unfolding heartbeat
heartbeat-IsKeyed r id load version now u = ground (
  arith,
  HasUniqueKeys-update worker_id (has_key worker_id id) (beaten load version now) (λ x. refl)
      r.workers u,
)

set_status-IsKeyed :
    (r : Registry) (id : String) (status : WorkerStatus)
    → IsKeyed r
    → IsKeyed (set_status r id status).0
unfolding set_status
set_status-IsKeyed r id status u =
    HasUniqueKeys-update worker_id (has_key worker_id id) (λ row. record row { status = status })
      (λ x. refl) r.workers u

mark_all-keyed :
    (stale table : List WorkerRow)
    → HasUniqueKeys worker_id table
    → HasUniqueKeys worker_id (mark_all stale table).0
unfolding mark_all
mark_all-keyed [] table u = u
mark_all-keyed (row ∷ stale) table u =
    let again =
      HasUniqueKeys-update worker_id (has_key worker_id row.id) marked (λ x. refl) table u in
    ground (
      arith,
      mark_all-keyed stale table u,
      mark_all-keyed stale (update (has_key worker_id row.id) marked table) again,
    )

pub sweep-IsKeyed : (r : Registry) (timeout now : ℕ) → IsKeyed r → IsKeyed (sweep r timeout now).0
unfolding sweep
sweep-IsKeyed r timeout now u =
    mark_all-keyed (select (is_stale (now - timeout)) r.workers) r.workers u

-- Where worker ids are unique, every operation that writes the table of workers keeps them so.
pub workers-IsKeyed :
    (r : Registry) (input : RegisterInput) (id : String) (load : WorkerLoad)
    (version : Option String) (status : WorkerStatus) (timeout now : ℕ)
    → IsKeyed r
    → IsKeyed (register r input now).0
      × IsKeyed (heartbeat r id load version now).0
      × IsKeyed (set_status r id status).0
      × IsKeyed (sweep r timeout now).0
workers-IsKeyed r input id load version status timeout now u = (
  register-IsKeyed r input now u,
  heartbeat-IsKeyed r id load version now u,
  set_status-IsKeyed r id status u,
  sweep-IsKeyed r timeout now u,
)
