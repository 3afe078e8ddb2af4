-- ===== src/Dns.antt =====
-- Package net/dns.
pub mod Message
pub mod Parser
pub mod Serializer
pub mod RoundTrip
pub mod Server
mod Tests
