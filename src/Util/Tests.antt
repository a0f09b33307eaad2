-- ===== src/Util/Tests.antt =====
-- Runs of src/util at concrete inputs.
use zerovisor.Util.Decimal.{u32_to_dec}
use zerovisor.Util.Decimal.Value.{number, IsDigit, u32_to_dec-number}
use zerovisor.Base.{length, ℕ, All, ◌<◌, ◌≤◌, ◌≡◌, refl, List, [], ◌∷◌, arith, not32}
use zerovisor.Util.Crc32.{crc32, crc_bytes, crc_byte}
use zerovisor.Util.Crc32.Bitwise.{divide_bytes, crc32-eq-divide_bytes}

-- The check value of the checksum, of the digits from 1 to 9.
abbrev digits : List ℕ
digits = 49 ∷ 50 ∷ 51 ∷ 52 ∷ 53 ∷ 54 ∷ 55 ∷ 56 ∷ 57 ∷ []

crc32-digits : crc32 digits ≡ 0xCBF43926
unfolding crc32 crc_bytes crc_byte
crc32-digits = refl

crc32-eq-divide_bytes_example :
    crc32 (49 ∷ 50 ∷ []) ≡ not32 (divide_bytes 0xFFFFFFFF (49 ∷ 50 ∷ []))
crc32-eq-divide_bytes_example =
    crc32-eq-divide_bytes (49 ∷ 50 ∷ []) (omega arith, (omega arith, tt))

u32_to_dec-number_example :
    (number (u32_to_dec 4096 16) 0 ≡ 4096)
    × All IsDigit (u32_to_dec 4096 16)
    × (0 < length (u32_to_dec 4096 16))
    × (length (u32_to_dec 4096 16) ≤ 10)
u32_to_dec-number_example = u32_to_dec-number 4096 16 (omega arith) (omega arith)
