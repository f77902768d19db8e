-- ===== src/Trading.antt =====
-- Order execution, backend/trading.
pub mod Books
pub mod Orders
pub mod Closing
pub mod Validation
mod Examples
