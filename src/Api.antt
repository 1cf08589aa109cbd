-- ===== src/Api.antt =====
-- pkg/api/service.go: the HTTP handlers.
pub mod Server
pub mod Handlers
pub mod Liquidity
pub mod SwapHandler
pub mod Split
pub mod Routes
pub mod Codes
pub mod Coded
pub mod Effects
pub mod Funds
pub mod Status
pub mod Owned
pub mod ReadOnly
mod Tiers
pub mod Panics
mod Examples
