-- ===== src/Sales.antt =====
-- backend/app/sales: sale events, what prices did during them, and their detection.
pub mod Models
pub mod Lifecycle
pub mod Applicability
pub mod History
pub mod Detection
pub mod Samples
mod Tests
