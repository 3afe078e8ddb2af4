-- ===== src/Dns/RoundTrip.antt =====
-- Parsing what was serialized.
pub mod Labels
pub mod Sections
pub mod Header
pub mod Message
