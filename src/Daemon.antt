-- ===== src/Daemon.antt =====
-- cmd/pikonoded: what the daemon does with the messages of local discovery and with the engine's
-- peers.
pub mod Host
pub mod Registration
mod Identity
pub mod Broadcast
mod Discovered
mod Announcing
pub mod Wireguard
mod Following
mod Keys
mod Kernel
pub mod Names
pub mod Startup
mod Punch
mod Whole
mod Resolving
pub mod Tests
