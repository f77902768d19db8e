-- ===== src/Risk.antt =====
-- The risk limits of backend/risk_management.
pub mod Numeric
pub mod Monitor
pub mod Recovery
pub mod Breakers
pub mod Tiers
pub mod Days
pub mod GoldEdge
pub mod DailyTarget
pub mod Targets
mod Examples
