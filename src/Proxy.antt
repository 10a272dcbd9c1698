-- ===== src/Proxy.antt =====
-- The HTTP proxy redirect (main/http_proxy.c).
pub mod Checksum
pub mod Settings
pub mod Flow
pub mod Hook
pub mod Sni
pub mod Request
pub mod Session
mod Tests
