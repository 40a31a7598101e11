-- ===== src/Recommendation.antt =====
-- backend/app/recommendation: the BUY_NOW / WAIT / WATCH engine.
pub mod Models
pub mod Rules
pub mod Confidence
pub mod Engine
pub mod Projection
mod Tests
pub mod Unverified
