-- ===== src/Security.antt =====
-- The request filters of backend/security.
pub mod Trust
pub mod ZeroTrust
pub mod Rates
pub mod Intrusion
