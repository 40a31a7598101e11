-- ===== src/Collection.antt =====
-- backend/app/collectors: the collection of observations from the retailers.
pub mod Models
pub mod Retry
pub mod Policy
pub mod Jobs
pub mod Rounds
pub mod Rows
pub mod Orchestrator
mod Tests
