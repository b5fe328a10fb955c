-- ===== src/Registry.antt =====
-- src/services/worker-registry.ts: the table `workers` and the instructions that wait for a worker.
-- The clock's reading is the argument `now` of each operation that reads it.
pub mod Keys
pub mod Heartbeats
pub mod Sweep
mod Tests
use Prim.Native.Nat.{Ordering}
use Prim.Native.String
use opencode_master.Base.{
  ℕ, String, Option, none, some, Bool, true, false, List, [], ◌∷◌, ◌++◌, ◌-◌, ltb, ◌==◌, ◌&&◌, not,
  if◌then◌else◌, find?, select, update, has_key, or_else, first_of_both,
}
use opencode_master.Types.{
  WorkerRow, WorkerLoad, WorkerCapacity, WorkerStatus, Instruction, unknown_worker, internal,
  Result, returns, throws,
}

abbrev pub empty_load : WorkerLoad
empty_load = record {
  cpu_pct = 0;
  mem_pct = 0;
  active_drains = 0;
  pending_steer = 0;
  pending_queue = 0;
  tool_processes = 0;
}

pub record Registry : Type 0 where
  pub workers : List WorkerRow
  pub pending_instructions : List (String × List Instruction)

-- `Map.get`, `Map.set` and `Map.delete`.
abbrev pub queued_for : String → List (String × List Instruction) → List Instruction
queued_for k [] = []
queued_for k ((j, is) ∷ m) = if j == k then is else queued_for k m

abbrev pub set_queue :
    String → List Instruction → List (String × List Instruction) → List (String × List Instruction)
set_queue k is [] = (k, is) ∷ []
set_queue k is ((j, js) ∷ m) = if j == k then (k, is) ∷ m else (j, js) ∷ set_queue k is m

abbrev pub delete_queue :
    String → List (String × List Instruction) → List (String × List Instruction)
delete_queue k [] = []
delete_queue k ((j, js) ∷ m) =
    let rest = delete_queue k m in if j == k then rest else (j, js) ∷ rest

unfoldable pub enqueue_instruction : Registry → String → Instruction → Registry
enqueue_instruction r worker_id instruction = record r {
  pending_instructions =
      set_queue worker_id (queued_for worker_id r.pending_instructions ++ instruction ∷ [])
        r.pending_instructions;
}

abbrev pub worker_id : WorkerRow → String
worker_id row = row.id

pub record RegisterInput : Type 0 where
  pub id : String
  pub address : String
  pub region : Option String
  pub version : Option String
  pub capacity : Option WorkerCapacity

unfoldable pub get : Registry → String → Option WorkerRow
get r id = find? (has_key worker_id id) r.workers

-- The `set` of `register` on a known worker.
abbrev pub refreshed : RegisterInput → ℕ → WorkerRow → WorkerRow
refreshed input now existing = record existing {
  address = input.address;
  region = first_of_both input.region existing.region;
  version = first_of_both input.version existing.version;
  capacity = or_else input.capacity existing.capacity;
  status = WorkerStatus.ok;
  last_heartbeat_at = some now;
}

abbrev pub new_worker : RegisterInput → ℕ → WorkerRow
new_worker input now = record {
  id = input.id;
  address = input.address;
  region = input.region;
  version = input.version;
  config_version = none;
  status = WorkerStatus.ok;
  capacity = or_else input.capacity (record { max_drains = none; max_sessions = none });
  load = empty_load;
  last_heartbeat_at = some now;
  first_seen_at = now;
}

unfoldable pub stored : Registry → RegisterInput → ℕ → Registry
unfolding get
stored r input now = elim (get r input.id) [
  | some existing ↦ record r {
    workers = update (has_key worker_id input.id) (refreshed input now) r.workers;
  }
  | none ↦ record r { workers = r.workers ++ new_worker input now ∷ [] }
]

unfoldable pub register : Registry → RegisterInput → ℕ → Registry × Result WorkerRow
unfolding stored get
register r input now =
    let s = stored r input now in
    elim (get s input.id) [
      | some view ↦ (s, returns view)
      | none ↦ (s, throws (internal "worker missing after register"))
    ]

-- `orderBy(workers.id)`: texts in the order of their code points.
abbrev text_leb : String → String → Bool
text_leb s t = elim (String.compare s t) [
  | Ordering.gt ↦ false
  | Ordering.eq ↦ true
  | Ordering.lt ↦ true
]

insert_by_id : WorkerRow → List WorkerRow → List WorkerRow
insert_by_id x [] = x ∷ []
insert_by_id x (y ∷ ys) =
    let rest = insert_by_id x ys in if text_leb x.id y.id then x ∷ (y ∷ ys) else y ∷ rest

ordered_by_id : List WorkerRow → List WorkerRow
ordered_by_id [] = []
ordered_by_id (x ∷ xs) = insert_by_id x (ordered_by_id xs)

unfoldable pub list : Registry → List WorkerRow
unfolding ordered_by_id insert_by_id
list r = ordered_by_id r.workers

abbrev pub is_ok : WorkerStatus → Bool
is_ok WorkerStatus.ok = true
is_ok _ = false

abbrev pub is_unhealthy : WorkerStatus → Bool
is_unhealthy WorkerStatus.unhealthy = true
is_unhealthy _ = false

unfoldable pub healthy_workers : Registry → List WorkerRow
healthy_workers r = select (λ row. is_ok row.status) r.workers

-- A worker that was unhealthy and reports again is well.
abbrev pub healed : WorkerStatus → WorkerStatus
healed WorkerStatus.unhealthy = WorkerStatus.ok
healed status = status

-- `configVersion ? … : {}`: an empty version changes nothing.
abbrev pub given_version : Option String → Option String → Option String
given_version none old = old
given_version (some v) old = if v == "" then old else some v

abbrev pub beaten : WorkerLoad → Option String → ℕ → WorkerRow → WorkerRow
beaten load config_version now row = record row {
  load = load;
  last_heartbeat_at = some now;
  status = healed row.status;
  config_version = given_version config_version row.config_version;
}

abbrev pub default_instructions : WorkerStatus → List Instruction
default_instructions WorkerStatus.draining = Instruction.drain ∷ []
default_instructions _ = Instruction.none ∷ []

abbrev pub to_send : List Instruction → WorkerStatus → List Instruction
to_send [] status = default_instructions status
to_send (i ∷ is) status = i ∷ is

unfoldable pub heartbeat :
    Registry
    → String
    → WorkerLoad
    → Option String
    → ℕ
    → Registry × Result (WorkerRow × List Instruction)
unfolding get
heartbeat r id load config_version now = elim (get r id) [
  | none ↦ (r, throws (unknown_worker id))
  | some row ↦ (
    record {
      workers = update (has_key worker_id id) (beaten load config_version now) r.workers;
      pending_instructions = delete_queue id r.pending_instructions;
    },
    returns (
      record (beaten load config_version now row) {
        config_version = first_of_both config_version row.config_version;
      },
      to_send (queued_for id r.pending_instructions) (healed row.status),
    ),
  )
]

unfoldable pub set_status : Registry → String → WorkerStatus → Registry × Option WorkerRow
unfolding get
set_status r id status =
    let s = record r {
      workers = update (has_key worker_id id) (λ row. record row { status = status }) r.workers;
    } in
    (s, get s id)

-- `last_heartbeat_at IS NULL OR last_heartbeat_at < cutoff`, with `cutoff = now - timeoutMs`, which
-- may be negative in the source: then no time is below it, as none is below 0.
abbrev pub is_stale : ℕ → WorkerRow → Bool
is_stale cutoff row = elim row.last_heartbeat_at [ none ↦ true | some t ↦ ltb t cutoff ]

-- The workers that the loop of `sweep` marks.
abbrev pub is_lost : ℕ → WorkerRow → Bool
is_lost cutoff row = is_stale cutoff row && not (is_unhealthy row.status)

abbrev pub marked : WorkerRow → WorkerRow
marked row = record row { status = WorkerStatus.unhealthy }

-- The loop of `sweep` over the stale rows that were read, which writes to the table.
unfoldable pub mark_all : List WorkerRow → List WorkerRow → List WorkerRow × List String
mark_all [] table = (table, [])
mark_all (row ∷ stale) table =
    let skip = mark_all stale table in
    let (after, ids) = mark_all stale (update (has_key worker_id row.id) marked table) in
    if is_unhealthy row.status then skip else (after, row.id ∷ ids)

unfoldable pub sweep : Registry → ℕ → ℕ → Registry × List String
unfolding mark_all
sweep r timeout_ms now =
    let (table, ids) = mark_all (select (is_stale (now - timeout_ms)) r.workers) r.workers in
    (record r { workers = table }, ids)
