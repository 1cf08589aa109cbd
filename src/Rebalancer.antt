-- ===== src/Rebalancer.antt =====
-- pkg/rebalancer/service.go: when to rebalance, and the swap that moves the price back.
pub mod Core
pub mod Rules
pub mod Actions
pub mod Swap
pub mod Decide
pub mod Race
pub mod Rests
pub mod Retry
pub mod Guard
pub mod Live
pub mod Keeps
mod Sells
pub mod Owned
pub mod Held
mod Examples
