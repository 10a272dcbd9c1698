-- ===== src/Ppp.antt =====
-- The RFCOMM server and its PPP session (main/ppp_link.c), with the BOOT button's switch of the
-- security mode (main/sec_button.c).
pub mod Names
pub mod Security
pub mod Handshake
pub mod Link
mod Tests
