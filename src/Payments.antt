-- ===== src/Payments.antt =====
-- The payments application, backend/payments: its tables, the gateway's replies, the service.
pub mod Json
pub mod Tables
pub mod Korapay
pub mod Gateways
pub mod Deposit
pub mod Withdrawal
pub mod Webhook
pub mod Reconcile
pub mod Ledger
pub mod Steps
pub mod Crediting
pub mod Verification
pub mod Withdrawals
pub mod Rounding
pub mod Webhooks
pub mod Hazards
mod Examples
