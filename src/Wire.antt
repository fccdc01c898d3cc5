-- ===== src/Wire.antt =====
-- The packets on the wire.
pub mod Checksum
pub mod Words
pub mod Header
