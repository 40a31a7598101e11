-- ===== src/Validation.antt =====
-- backend/app/domain/validation.py and exceptions.py: the checks that entities and requests share.
pub mod Text
pub mod Outcome
pub mod Slugs
pub mod Slugify
pub mod Attributes
pub mod VariantKeys
pub mod SaleEvents
mod Tests
