-- ===== src/Adapters.antt =====
-- backend/app/retailer_adapters/base: the pacing and the retries of calls to a retailer.
pub mod RateLimit
pub mod Retry
pub mod Execution
pub mod Models
pub mod Interface
pub mod Registry
pub mod Fleet
mod Tests
