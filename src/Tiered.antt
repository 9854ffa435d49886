-- ===== src/Tiered.antt =====
-- server/tiered_asset_store.py: the asset store in memory, with a storage provider behind it.
pub mod Store
pub mod Admit
pub mod Written
pub mod Rollback
pub mod Durable
mod Tests
