-- ===== src/Rtmp.antt =====
-- src/rtmp: the Real Time Messaging Protocol.
pub mod Header
pub mod Chunk
pub mod Dechunk
