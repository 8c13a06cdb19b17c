-- ===== src/Carry.antt =====
-- Funding and cost decisions: python/perpcarry/strategy/carry.py, and the forecast that
-- python/perpcarry/models/rolling_funding.py hands to it.
pub mod Types
pub mod Decide
pub mod Evidence
pub mod Grounds
pub mod Samples
mod Examples
