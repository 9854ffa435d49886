-- ===== src/Pool.antt =====
-- backends/worker_pool.py: the worker pool, its job queue and its model authority.
pub mod Model
pub mod Loading
pub mod Loads
pub mod Authority
pub mod Jobs
pub mod Loop
pub mod Lifecycle
pub mod Schedule
pub mod Advances
pub mod Rounds
pub mod Ends
pub mod Sound
pub mod Entries
pub mod Safety
pub mod Cancelled
pub mod Barrier
pub mod Outcomes
pub mod Reload
pub mod FreeVram
mod Draining
mod Tests
