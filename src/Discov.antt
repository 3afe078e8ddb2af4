-- ===== src/Discov.antt =====
-- net/discov: the messages of local discovery, the loop that receives them with its setup and its end,
-- the choice of network interfaces, and the sending.
pub mod Msg
pub mod Listen
mod RoundTrip
pub mod Session
mod Delivery
pub mod Interfaces
mod Tests
