-- ===== src/Util/Crc32.antt =====
-- src/util/crc32.rs: the CRC32 of IEEE 802.3 with a static table.
pub mod Table
pub mod Laws
pub mod Bitwise
use zerovisor.Base.{ℕ, zero, suc, ◌+◌, List, [], ◌∷◌, bit_and, bit_xor, get_or, not32, ◌>>◌}
use Table.{table}

-- The body of each loop: one byte.
unfoldable pub crc_byte : ℕ → ℕ → ℕ
crc_byte c b = bit_xor (c >> 8) (get_or table (bit_and (bit_xor c b) 0xFF) 0)

unfoldable pub crc_bytes : ℕ → List ℕ → ℕ
unfolding crc_byte
crc_bytes c [] = c
crc_bytes c (b ∷ bs) = crc_bytes (crc_byte c b) bs

unfoldable pub crc32 : List ℕ → ℕ
unfolding crc_bytes
crc32 bs = not32 (crc_bytes 0xFFFFFFFF bs)

unfoldable pub crc32_update : ℕ → List ℕ → ℕ
unfolding crc_bytes
crc32_update c bs = not32 (crc_bytes (not32 c) bs)

-- The loop of `crc32_ptr` at index `i` with `left` rounds to go; `read` is the memory at `ptr`.
unfoldable pub ptr_loop : (ℕ → ℕ) → ℕ → ℕ → ℕ → ℕ
unfolding crc_byte
ptr_loop read zero i c = c
ptr_loop read (suc left) i c = ptr_loop read left (i + 1) (crc_byte c (read i))

unfoldable pub crc32_ptr : (ℕ → ℕ) → ℕ → ℕ
unfolding ptr_loop
crc32_ptr read len = not32 (ptr_loop read len 0 0xFFFFFFFF)
