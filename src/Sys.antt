-- ===== src/Sys.antt =====
-- src/sys: what the library asks of the system, here the byte order.
pub mod Endian
