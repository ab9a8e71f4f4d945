-- ===== src/Rtp.antt =====
-- The RTP layer (src/Rtp): sequence numbers, loss tracking and packets.
pub mod Counter
pub mod Tracker
pub mod Packet
mod Tests
