-- ===== src/Storage.antt =====
-- The persistence of Stability Toys: the storage provider that keeps items in memory, and the codec of
-- assets.
pub mod Memory
pub mod Expiry
pub mod Limits
pub mod Codec
mod Tests
