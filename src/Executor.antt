-- ===== src/Executor.antt =====
-- pkg/executor/service.go: the executor's operations on the chain.
pub mod Core
pub mod Trades
pub mod Tiers
pub mod Receipts
pub mod Reports
pub mod Mined
pub mod Live
pub mod Completes
pub mod View
pub mod Sells
pub mod Owned
pub mod Payouts
mod Examples
