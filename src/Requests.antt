-- ===== src/Requests.antt =====
-- What the server makes of a request before it becomes a job.
pub mod Finalize
mod Tests
