-- ===== src/Matching.antt =====
-- backend/app/matching: whether two listings are one product.
pub mod Models
pub mod Identifiers
pub mod Attributes
pub mod Stages
pub mod Score
pub mod Decision
pub mod Engine
mod Tests
