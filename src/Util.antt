-- ===== src/Util.antt =====
-- src/util: checksums, hexadecimal output and the spin lock.
pub mod Crc32
pub mod Decimal
pub mod Format
pub mod Tests
