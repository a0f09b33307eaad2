-- ===== src/Util/Crc32/Laws.antt =====
-- The three entry points agree: a checksum can be continued, and read from memory.
use zerovisor.Bits.Xor.{xor-lt}
use zerovisor.Base.{
  ℕ, zero, suc, ◌+◌, ◌/◌, ◌^◌, ◌<◌, ◌≡◌, refl, ap, ap₂, ◌∙◌, List, [], ◌∷◌, ◌++◌, arith, bit_xor,
  bit_and, get_or, not32, tabulate, tabulate_ext,
}
use zerovisor.Util.Crc32.{crc_byte, crc_bytes, crc32, crc32_update, ptr_loop, crc32_ptr}
use zerovisor.Util.Crc32.Table.{table}

pub IsWords : List ℕ → Type 0
IsWords [] = Unit {0}
IsWords (x ∷ xs) = (x < 2 ^ 32) × IsWords xs

table-IsWords : IsWords table
unfolding IsWords
table-IsWords = omega arith

get_or-IsWords : (xs : List ℕ) (i : ℕ) → IsWords xs → get_or xs i 0 < 2 ^ 32
unfolding IsWords
get_or-IsWords [] i h = omega arith
get_or-IsWords (x ∷ xs) zero h = h.0
get_or-IsWords (x ∷ xs) (suc i) h = get_or-IsWords xs i h.1

crc_byte-lt : (c b : ℕ) → c < 2 ^ 32 → crc_byte c b < 2 ^ 32
unfolding crc_byte
crc_byte-lt c b h =
    xor-lt 32 (c / 2 ^ 8) _ (omega arith)
      (get_or-IsWords table (bit_and (bit_xor c b) 0xFF) table-IsWords)

pub crc_bytes-lt : (c : ℕ) (bs : List ℕ) → c < 2 ^ 32 → crc_bytes c bs < 2 ^ 32
unfolding crc_bytes
crc_bytes-lt c [] h = h
crc_bytes-lt c (b ∷ bs) h = crc_bytes-lt (crc_byte c b) bs (crc_byte-lt c b h)

pub crc_bytes-append :
    (c : ℕ) (xs ys : List ℕ) → crc_bytes c (xs ++ ys) ≡ crc_bytes (crc_bytes c xs) ys
unfolding crc_bytes
crc_bytes-append c [] ys = refl
crc_bytes-append c (x ∷ xs) ys = crc_bytes-append (crc_byte c x) xs ys

pub not32_twice : (c : ℕ) → c < 2 ^ 32 → not32 (not32 c) ≡ c
not32_twice c h = omega arith

-- Continuing the checksum of one slice over another gives the checksum of both together.
pub crc32_update-append : (xs ys : List ℕ) → crc32_update (crc32 xs) ys ≡ crc32 (xs ++ ys)
unfolding crc32 crc32_update
crc32_update-append xs ys =
    let c : ℕ = crc_bytes 0xFFFFFFFF xs in
    ap (λ d. not32 (crc_bytes d ys)) (not32_twice c (crc_bytes-lt 0xFFFFFFFF xs (omega arith)))
    ∙ ap not32 (sym_append xs ys)
  where
    sym_append :
        (xs ys : List ℕ) → crc_bytes (crc_bytes 0xFFFFFFFF xs) ys ≡ crc_bytes 0xFFFFFFFF (xs ++ ys)
    sym_append xs ys = rw (crc_bytes-append 0xFFFFFFFF xs ys)

ptr_loop-eq-crc_bytes :
    (read : ℕ → ℕ) (left i c : ℕ)
    → ptr_loop read left i c ≡ crc_bytes c (tabulate left (λ j. read (i + j)))
unfolding ptr_loop crc_bytes
ptr_loop-eq-crc_bytes read zero i c = refl
ptr_loop-eq-crc_bytes read (suc left) i c =
    ptr_loop-eq-crc_bytes read left (i + 1) (crc_byte c (read i))
    ∙ ap₂ crc_bytes (ap (λ j. crc_byte c (read j)) (omega arith))
        (tabulate_ext left _ _ λ j p. ap read (omega arith))

-- The checksum of a region of memory is that of the bytes it holds.
pub crc32_ptr-eq-crc32 : (read : ℕ → ℕ) (len : ℕ) → crc32_ptr read len ≡ crc32 (tabulate len read)
unfolding crc32_ptr crc32
crc32_ptr-eq-crc32 read len = ap not32 (
    ptr_loop-eq-crc_bytes read len 0 0xFFFFFFFF
    ∙ ap (crc_bytes 0xFFFFFFFF) (tabulate_ext len _ _ λ j p. ap read (omega arith)))
