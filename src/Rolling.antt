-- ===== src/Rolling.antt =====
-- The observed funding history and its forecasts: RollingFundingModel of
-- python/perpcarry/models/rolling_funding.py.
pub mod History
pub mod Regular
pub mod Update
pub mod Selection
pub mod Forecast
pub mod Admissible
mod Examples
