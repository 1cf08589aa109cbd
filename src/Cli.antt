-- ===== src/Cli.antt =====
-- main.go: the two commands that talk to the chain directly, and the bytes that they send.
pub mod Encode
mod Bytes
mod Words
pub mod Commands
mod Recording
mod Signed
mod Examples
