-- ===== src/Assets.antt =====
-- server/asset_store.py: the bucketed in-memory asset store.
pub mod Model
pub mod Store
pub mod Upkeep
pub mod Accounting
pub mod Oldest
pub mod Eviction
pub mod Placement
pub mod Methods
pub mod Cleanup
pub mod History
pub mod Calls
pub mod Runs
pub mod Safety
mod Tests
