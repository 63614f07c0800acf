-- ===== src/Dns.antt =====
-- The embedded DNS server, src/dnsd.
pub mod Outcome
pub mod Header
pub mod Reply
pub mod Labels
pub mod Question
pub mod Names
pub mod Records
pub mod Zones
pub mod Config
pub mod Sections
pub mod Daemon
pub mod Receive
mod Tests
