-- ===== src/Bits.antt =====
-- Facts about the bit operations of the source at variables: masks, shifts and fields as
-- arithmetic, and the laws of exclusive or.
pub mod Fields
pub mod Xor
