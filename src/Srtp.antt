-- ===== src/Srtp.antt =====
-- src/srtp: the Secure Real-time Transport Protocol.
pub mod Replay
