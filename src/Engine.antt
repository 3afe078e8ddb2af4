-- ===== src/Engine.antt =====
-- Package piko.
pub mod Cache
pub mod Handle
pub mod Register
pub mod Devices
pub mod Peers
pub mod Invariant
pub mod Reach
pub mod Lost
pub mod Known
pub mod Handled
pub mod Update
mod Tests
