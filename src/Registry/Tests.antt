-- ===== src/Registry/Tests.antt =====
-- src/services/worker-registry.ts, run on three workers.
use opencode_master.Base.{[], ◌∷◌, ◌≡◌, refl, map, select}
use opencode_master.Registry
use opencode_master.Registry.{worker_id, Registry, is_lost, sweep}
use opencode_master.Registry.Sweep.{sweep_lem, swept}
use opencode_master.Samples.{three_workers, workers-HasUniqueKeys}

sweep_marks : (sweep three_workers 30 100).1 ≡ "b" ∷ "c" ∷ []
unfolding sweep Registry.mark_all
sweep_marks = refl

sweep_lem_example :
    ((sweep three_workers 30 100).0.workers ≡ map (swept 70) three_workers.workers)
    × ((sweep three_workers 30 100).1 ≡ map worker_id (select (is_lost 70) three_workers.workers))
sweep_lem_example = sweep_lem three_workers 30 100 workers-HasUniqueKeys
