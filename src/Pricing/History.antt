-- ===== src/Pricing/History.antt =====
-- backend/app/pricing/history.py and history_models.py: what the stored observations of a variant say.
pub mod Points
pub mod Metrics
pub mod Changes
pub mod Engine
pub mod Bounds
pub mod Order
pub mod Variance
pub mod Deviation
pub mod Drops
pub mod Samples
mod Tests
