-- ===== src/Av1.antt =====
-- src/av1: AV1 over RTP.
pub mod Obu
pub mod Pkt
