-- ===== src/Rtp.antt =====
-- src/rtp: the Real-time Transport Protocol.
pub mod Header
pub mod Source
