-- ===== src/Conditioning.antt =====
-- backends/conditioning: services and filters of prompts, and the invocations that they return.
pub mod Invocation
pub mod Chain
mod Cancelling
mod Fallback
mod Tests
