-- ===== src/Trading.antt =====
-- openpine/orders, risk, accounts and execution: what stands between an order intent and an exchange.
pub mod Model
pub mod Risk
pub mod Router
pub mod Paper
pub mod Rules
pub mod OrderTable
pub mod Orders
mod Tests
mod RuleTests
mod OrderTests
