-- ===== src/Migrate/Bitmap.antt =====
-- `DirtyBitmap` of src/migrate/mod.rs: one bit for each guest page, in bytes of memory.
use zerovisor.Base.{
  ℕ, zero, suc, ◌+◌, ◌*◌, ◌/◌, ◌%◌, Bool, Option, none, some, List, [], ◌∷◌, ◌++◌, bit_and, bit_or,
  get_or, set, replicate, ltb, ◌==◌, if◌then◌else◌, ◌<<◌, ◌>>◌,
}

-- `base` is the memory behind the pointer, `pages * 4096` bytes; `bytes` is the part in use.
pub record DirtyBitmap : Type 0 where
  pub base : List ℕ
  pub bytes : ℕ
  pub pages : ℕ

-- `allocated` says whether the firmware gives the pages.
unfoldable pub allocate : Bool → ℕ → Option DirtyBitmap
allocate allocated num_pages =
    let bytes = (num_pages + 7) / 8 in
    let pages = (bytes + 4095) / 4096 in
    if allocated
    then some (record { base = replicate (pages * 4096) 0; bytes = bytes; pages = pages })
    else none

-- `write_bytes(base, 0, bytes)`
unfoldable pub clear_from : ℕ → ℕ → List ℕ → List ℕ
clear_from zero i base = base
clear_from (suc n) i base = clear_from n (i + 1) (set base i 0)

unfoldable pub clear_all : DirtyBitmap → DirtyBitmap
unfolding clear_from
clear_all b = record b { base = clear_from b.bytes 0 b.base }

unfoldable pub set_bit : DirtyBitmap → ℕ → DirtyBitmap
set_bit b index =
    let byte = index >> 3 in
    let bit = bit_and index 7 in
    if ltb byte b.bytes
    then record b { base = set b.base byte (bit_or (get_or b.base byte 0) (1 << bit)) }
    else b

-- `count_ones` of a byte.
unfoldable pub count_ones : ℕ → ℕ → ℕ
count_ones zero v = 0
count_ones (suc n) v = v % 2 + count_ones n (v / 2)

-- The loop of `count_set` at byte `i`.
unfoldable pub count_from : ℕ → ℕ → List ℕ → ℕ
unfolding count_ones
count_from zero i base = 0
count_from (suc n) i base = count_ones 8 (get_or base i 0) + count_from n (i + 1) base

unfoldable pub count_set : DirtyBitmap → ℕ
unfolding count_from
count_set b = count_from b.bytes 0 b.base

-- The inner loop of `for_each_set`: the mask loses a bit a round, so eight rounds are enough.
unfoldable pub mask_loop : ℕ → ℕ → ℕ → List ℕ
mask_loop zero index mask = []
mask_loop (suc fuel) index mask =
    let rest = mask_loop fuel (index + 1) (mask >> 1) in
    if mask == 0 then [] else if bit_and mask 1 == 0 then rest else index ∷ rest

-- The outer loop at byte `i`.
unfoldable pub bytes_loop : ℕ → ℕ → ℕ → List ℕ → List ℕ
unfolding mask_loop
bytes_loop zero i base_bit base = []
bytes_loop (suc n) i base_bit base =
    mask_loop 8 base_bit (get_or base i 0) ++ bytes_loop n (i + 1) (base_bit + 8) base

-- The page indices that `for_each_set` calls its closure with, in order.
unfoldable pub for_each_set : DirtyBitmap → List ℕ
unfolding bytes_loop
for_each_set b = bytes_loop b.bytes 0 0 b.base
