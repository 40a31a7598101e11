-- ===== src/Sales/Detection.antt =====
-- backend/app/sales/detection.py: sale windows inferred from price drops. Names are the values that
-- their sentences interpolate; log records and metrics are left out.
pub mod Drops
pub mod Windows
pub mod Median
pub mod Thresholds
pub mod Closed
pub mod Accepted
pub mod Valid
pub mod Clusters
