-- ===== src/Assignment.antt =====
-- src/services/session-service.ts: `place`, the choice of a worker for a user.
pub mod Laws
use opencode_master.Base.{
  String, Option, none, some, Bool, true, not, List, [], ◌∷◌, map, find?, select, has_key, ◌==◌,
  first_of_both, is_some,
}
use opencode_master.Types.{WorkerRow, WorkerLoad}
use opencode_master.Config.{Config}
use opencode_master.Registry
use opencode_master.Registry.{Registry, worker_id}
use opencode_master.Placement.{RingEntry, build_ring, default_vnodes, candidates}
use opencode_master.Placement.Load.{pick_least_loaded}

-- `worker.id !== excludeWorkerId`; an absent exclusion excludes none.
abbrev pub is_other : Option String → WorkerRow → Bool
is_other none worker = true
is_other (some excluded) worker = not (worker.id == excluded)

unfoldable pub eligible : Registry → Option String → List WorkerRow
eligible r excluded = select (is_other excluded) (Registry.healthy_workers r)

-- `ids.map((id) => byId.get(id))`, of ids that are all there.
abbrev pub views_of : List WorkerRow → List String → List WorkerRow
views_of workers [] = []
views_of workers (id ∷ ids) =
    let rest = views_of workers ids in
    elim (find? (has_key worker_id id) workers) [ none ↦ rest | some view ↦ view ∷ rest ]

abbrev pub ring_entry : WorkerRow → RingEntry
ring_entry worker = record { id = worker.id; weight = none }

abbrev pub load_of : WorkerRow → WorkerLoad
load_of worker = worker.load

unfoldable pub preferred : Config → List WorkerRow → String → List WorkerRow
preferred cfg healthy user_id = views_of healthy (
    candidates (build_ring (map ring_entry healthy) default_vnodes) user_id cfg.placement_candidates
      (some (λ id. is_some (find? (has_key worker_id id) healthy))))

place_among : Config → List WorkerRow → String → Option WorkerRow
place_among cfg [] user_id = none
place_among cfg (w ∷ ws) user_id =
    first_of_both (pick_least_loaded load_of (preferred cfg (w ∷ ws) user_id))
      (pick_least_loaded load_of (w ∷ ws))

unfoldable pub place : Registry → Config → String → Option String → Option WorkerRow
unfolding place_among eligible
place r cfg user_id excluded = place_among cfg (eligible r excluded) user_id
