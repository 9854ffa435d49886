-- ===== src/Families.antt =====
-- backends/family_profiles.py and server/controlnet_registry.py: model families, and the ControlNet models
-- that are registered for them.
pub mod Profiles
pub mod Registry
mod References
mod Tests
