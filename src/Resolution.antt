-- ===== src/Resolution.antt =====
-- backends/model_resolution.py: the portable resolution of a model.
pub mod Snapshot
pub mod Identity
pub mod Wire
pub mod Resolver
pub mod Roundtrip
pub mod Traces
pub mod Safety
pub mod Integrity
mod Tests
