-- ===== src/Discovery.antt =====
-- Package discovery: who announces, who is heard, and who is gone.
pub mod Packet
pub mod Service
pub mod Announce
pub mod Presence
mod Tests
