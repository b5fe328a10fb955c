-- ===== src/Scheduler.antt =====
-- src/services/scheduler.ts: the sweep for lost workers, and the move of their sessions. The clock's
-- readings are arguments; the timer that starts a round is not modelled.
pub mod Down
pub mod Rounds
mod Tests
use opencode_master.Base.{ℕ, String, Bool, List, [], ◌∷◌, ◌++◌, if◌then◌else◌}
use opencode_master.Config.{Config}
use opencode_master.Database.{Database}
use opencode_master.Registry.{sweep}
use opencode_master.Sessions.{rehome_worker_sessions}

pub record SchedulerReport : Type 0 where
  pub unhealthy_workers : List String
  pub rehomed_sessions : List String

-- The loop of `runOnce` over the lost workers.
unfoldable pub rehome_all : Database → Config → List String → ℕ → Database × List String
rehome_all db cfg [] now = (db, [])
rehome_all db cfg (worker_id ∷ ids) now =
    let (moved, here) = rehome_worker_sessions db cfg worker_id now in
    let (after, rest) = rehome_all moved cfg ids now in (after, here ++ rest)

-- `sessions?.`: a scheduler without the session service moves nothing.
unfoldable pub run_once : Bool → Database → Config → ℕ → ℕ → Database × SchedulerReport
unfolding rehome_all
run_once has_sessions db cfg now later =
    let (registry, unhealthy) = sweep db.registry cfg.heartbeat_timeout_ms now in
    let swept = record db { registry = registry } in
    let (after, rehomed) =
      if has_sessions then rehome_all swept cfg unhealthy later else (swept, []) in
    (after, record { unhealthy_workers = unhealthy; rehomed_sessions = rehomed })
