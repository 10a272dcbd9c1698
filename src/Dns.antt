-- ===== src/Dns.antt =====
-- The DNS forwarder (main/dns_fwd.c).
pub mod Cache
pub mod Reply
pub mod Desc
pub mod Forward
pub mod Server
pub mod Watchdog
mod Tests
