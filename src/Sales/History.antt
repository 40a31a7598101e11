-- ===== src/Sales/History.antt =====
-- backend/app/sales/history.py: what the prices of a variant did during sale events.
pub mod Metrics
pub mod Engine
pub mod Counts
pub mod Partition
pub mod Bounds
pub mod Total
