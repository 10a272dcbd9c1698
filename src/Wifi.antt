-- ===== src/Wifi.antt =====
-- The WiFi manager (main/wifi_multi.c).
pub mod Saved
pub mod Scan
pub mod Cycle
pub mod Watchdog
mod Tests
