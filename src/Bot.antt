-- ===== src/Bot.antt =====
-- main.go: the bot, which holds the components together, and the ticks of its three loops as steps of
-- one machine.
pub mod Core
pub mod Machine
pub mod Inputs
pub mod Moves
pub mod Sound
pub mod Reach
pub mod Refines
pub mod Served
mod Average
pub mod Loops
pub mod Owned
pub mod Hands
pub mod Completes
pub mod Unfed
pub mod Stopped
pub mod Stale
mod Shutdown
mod Quiet
pub mod Sample
mod Examples
