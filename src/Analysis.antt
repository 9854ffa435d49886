-- ===== src/Analysis.antt =====
-- backends/analysis: requests to describe images, from the wire to the response.
pub mod Contracts
pub mod Json
pub mod Parsing
pub mod Validation
pub mod Orchestrator
mod Agreement
mod Bindings
mod Responses
mod Verdict
mod Isolation
mod Tests
