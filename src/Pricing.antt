-- ===== src/Pricing.antt =====
-- backend/app/pricing: the price comparison engine.
pub mod Models
pub mod Effective
pub mod Freshness
pub mod Ranking
pub mod Engine
pub mod History
mod Tests
