-- ===== src/Client.antt =====
-- cmd/xxdrive-cli: the command-line client.
pub mod Dict
pub mod Sync
pub mod Transfers
pub mod Pass
pub mod Server
pub mod Others
pub mod Decision
pub mod Held
pub mod Baseline
pub mod Kept
pub mod Lossless
