-- ===== src/Ifctl.antt =====
-- net/ifctl: the network interface of the daemon, on Linux and on Windows.
pub mod Net
pub mod Linux
pub mod Windows
mod Hosts
mod Routes
mod Routing
mod Deleting
mod Tests
