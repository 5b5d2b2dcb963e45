-- ===== src/Tests.antt =====
-- Concrete runs of the models, and the theorems at concrete inputs.
mod Host
mod Memory
mod Codecs
mod Streams
mod Extensions
mod Order
mod Chunks
mod Hashes
mod Lists
mod Messages
mod Video
mod Text
mod Tables
