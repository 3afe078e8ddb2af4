-- ===== src/Resolv.antt =====
-- net/dns/resolvconf/resolvconf.go: the configuration, the text that `SetDNS` hands to the program
-- resolvconf, and `parse`.
pub mod Text
pub mod Command
mod RoundTrip
mod Tests
