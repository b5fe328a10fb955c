-- ===== src/Scheduler/Tests.antt =====
-- src/services/scheduler.ts, run on the sample master: worker `b` is lost, and its session moves.
use opencode_master.Base.{true, false, [], ◌∷◌, ◌≡◌, refl, text_dec, Bool-cases, sort_by, decimal}
use opencode_master.Registry.{sweep, mark_all, healthy_workers}
use opencode_master.Assignment.{place, preferred}
use opencode_master.Placement.{candidates, build_ring, hash_string}
use opencode_master.Placement.Load.{pick_least_loaded}
use opencode_master.Sessions.{rehome_worker_sessions}
use opencode_master.Scheduler.{run_once, rehome_all}
use opencode_master.Scheduler.Rounds.{run_once_fences}
use opencode_master.Turns.{is_current_lease}
use opencode_master.Sessions.Samples.{sample-IsSound}
use opencode_master.Samples.{sample, sample_config, workers-HasUniqueKeys}

round_reports : (run_once true sample sample_config 100 101).1.rehomed_sessions ≡ "s" ∷ []
unfolding run_once rehome_all rehome_worker_sessions sweep mark_all text_dec Bool-cases place
    healthy_workers pick_least_loaded preferred candidates build_ring sort_by hash_string decimal
round_reports = refl

run_once_fences_example :
    is_current_lease (run_once true sample sample_config 100 101).0 "s" "b" 1 ≡ false
unfolding run_once sweep mark_all text_dec Bool-cases
run_once_fences_example =
    run_once_fences sample sample_config 100 101 "b" "s" 1 sample-IsSound workers-HasUniqueKeys refl
