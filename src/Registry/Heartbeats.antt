-- ===== src/Registry/Heartbeats.antt =====
-- src/services/worker-registry.ts: what a heartbeat changes, and that it keeps a worker alive.
use opencode_master.Base.{
  ℕ, String, Option, none, some, ◌≡◌, refl, arith, ◌≤◌, List, ◌+◌, contains, map, false, select,
  if◌then◌else◌, ◌-◌, ◌++◌, ◌==◌, update, ◌∷◌, has_key, [], map_some, find?-update, first_of_both,
}
use opencode_master.Types.{WorkerRow, WorkerLoad, Instruction, returns, throws, unknown_worker}
use opencode_master.Registry.{
  Registry, worker_id, get, heartbeat, beaten, to_send, healed, queued_for, delete_queue, set_queue,
  enqueue_instruction, sweep, is_lost, WorkerStatus,
}
use opencode_master.Registry.Keys.{IsKeyed, heartbeat-IsKeyed}
use opencode_master.Registry.Sweep.{sweep_lem}

queued_for-delete_queue :
    (k j : String) (m : List (String × List Instruction))
    → queued_for j (delete_queue k m) ≡ (if k == j then [] else queued_for j m)
queued_for-delete_queue k j [] = ground arith
queued_for-delete_queue k j ((i, is) ∷ m) = ground (arith, queued_for-delete_queue k j m)

queued_for-set_queue :
    (k j : String) (is : List Instruction) (m : List (String × List Instruction))
    → queued_for j (set_queue k is m) ≡ (if k == j then is else queued_for j m)
queued_for-set_queue k j is [] = ground arith
queued_for-set_queue k j is ((i, js) ∷ m) = ground (arith, queued_for-set_queue k j is m)

-- A heartbeat of an unknown worker is refused and changes nothing; one of a known worker stores
-- the load and the time, heals an unhealthy worker but not a draining one, and leaves every other
-- worker as it was.
pub heartbeat-get :
    (r : Registry) (id k : String) (load : WorkerLoad) (version : Option String) (now : ℕ)
    → ((get r id ≡ none) → heartbeat r id load version now ≡ (r, throws (unknown_worker id)))
      × (get (heartbeat r id load version now).0 k
          ≡ (if id == k then map_some (beaten load version now) (get r k) else get r k))
unfolding heartbeat
heartbeat-get r id k load version now = (
  λ e. ground arith,
  ground (arith, find?-update worker_id id k (beaten load version now) (λ x. refl) r.workers),
)

to_send-append :
    (is : List Instruction) (i : Instruction) (status : WorkerStatus)
    → to_send (is ++ i ∷ []) status ≡ is ++ i ∷ []
to_send-append [] i status = refl
to_send-append (j ∷ is) i status = refl

-- Instructions are delivered in the order of their queue, and once: the heartbeat that follows a
-- queued instruction of a known worker returns what waited with the instruction at the end, and
-- leaves nothing queued for this worker; the queue of every other worker stays as it was.
pub heartbeat-enqueue_instruction :
    (r : Registry) (id k : String) (i : Instruction) (row : WorkerRow) (load : WorkerLoad)
    (version : Option String) (now : ℕ)
    → get r id ≡ some row
    → let after = heartbeat (enqueue_instruction r id i) id load version now in
      ((view : WorkerRow) × (after.1
          ≡ returns (view, queued_for id r.pending_instructions ++ i ∷ [])))
      × (queued_for k after.0.pending_instructions
          ≡ (if id == k then [] else queued_for k r.pending_instructions))
unfolding heartbeat enqueue_instruction
heartbeat-enqueue_instruction r id k i row load version now e = (
  (
    record (beaten load version now row) {
      config_version = first_of_both version row.config_version;
    },
    ground (
      arith,
      queued_for-set_queue id id (queued_for id r.pending_instructions ++ i ∷ [])
          r.pending_instructions,
      to_send-append (queued_for id r.pending_instructions) i (healed row.status),
    ),
  ),
  ground (
    arith,
    queued_for-delete_queue id k
        (set_queue id (queued_for id r.pending_instructions ++ i ∷ []) r.pending_instructions),
    queued_for-set_queue id k (queued_for id r.pending_instructions ++ i ∷ [])
        r.pending_instructions,
  ),
)

not_lost_after :
    (id : String) (load : WorkerLoad) (version : Option String) (beat timeout now : ℕ)
    (xs : List WorkerRow)
    → now ≤ beat + timeout
    → contains
        (map worker_id (
          select
            (is_lost (now - timeout))
            (update (has_key worker_id id) (beaten load version beat) xs)))
        id
      ≡ false
not_lost_after id load version beat timeout now [] h = refl
not_lost_after id load version beat timeout now (x ∷ xs) h =
    ground (arith, not_lost_after id load version beat timeout now xs h)

-- Where worker ids are unique, a known worker that reported at time `beat` is not marked by a sweep up
-- to the timeout later.
sweep-heartbeat :
    (r : Registry) (id : String) (row : WorkerRow) (load : WorkerLoad) (version : Option String)
    (beat timeout now : ℕ)
    → IsKeyed r
    → get r id ≡ some row
    → now ≤ beat + timeout
    → contains (sweep (heartbeat r id load version beat).0 timeout now).1 id ≡ false
unfolding heartbeat
sweep-heartbeat r id row load version beat timeout now u e h =
    let (_, same) =
      sweep_lem (heartbeat r id load version beat).0 timeout now
        (heartbeat-IsKeyed r id load version beat u) in
    rw same (ground (arith, not_lost_after id load version beat timeout now r.workers h))
