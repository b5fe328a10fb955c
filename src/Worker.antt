-- ===== src/Worker.antt =====
-- src/worker: the parts of the process that runs the sessions of a worker.
pub mod Actor
pub mod Reporter
pub mod Runtime
pub mod Outcomes
pub mod Executor
pub mod Proxy
pub mod Runs
pub mod Snapshots
mod Tests
