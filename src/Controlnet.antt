-- ===== src/Controlnet.antt =====
-- backends/controlnet_cache.py and server/controlnet_constraints.py: the ControlNet model cache and the
-- request policy.
pub mod Cache
pub mod Pins
pub mod Leases
pub mod Policy
pub mod Admission
mod Tests
