-- ===== src/Superres.antt =====
-- server/superres_service.py: super-resolution, its tiles and its queue.
pub mod Tiles
mod Cover
pub mod Service
mod Rounds
mod Serving
mod Endings
mod Tests
