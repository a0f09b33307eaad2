-- ===== src/Migrate/Scan.antt =====
-- `scan_ept` and `scan_npt` of src/migrate/mod.rs: a walk over nested page tables that marks the
-- pages whose dirty flag is set. The two differ in the bits of the entries, which are an argument.
pub mod Progress
pub mod ReadOnly
use zerovisor.Base.{
  ℕ, zero, suc, ◌+◌, ◌-◌, ◌^◌, Bool, not, ltb, ◌==◌, if◌then◌else◌, bit_and, bit_or, ◌<<◌, ◌>>◌,
  u64, sat_add64,
}
use zerovisor.Migrate.Bitmap.{DirtyBitmap, set_bit}
use zerovisor.Mm.Memory.{Words, word, store}

pub record Bits : Type 0 where
  pub present : ℕ
  pub page_size : ℕ
  pub accessed : ℕ
  pub dirty : ℕ

abbrev pub ept_bits : Bits
ept_bits = record { present = 1 << 0; page_size = 1 << 7; accessed = 1 << 8; dirty = 1 << 9 }

abbrev pub npt_bits : Bits
npt_bits = record { present = 1 << 0; page_size = 1 << 7; accessed = 1 << 5; dirty = 1 << 6 }

-- Where the walk is, the tables, the bitmap and the count of dirty pages.
pub record Scan : Type 0 where
  pub addr : ℕ
  pub words : Words
  pub bitmap : DirtyBitmap
  pub dirty_pages : ℕ

abbrev pub has : ℕ → ℕ → Bool
has entry bit = not (bit_and entry bit == 0)

abbrev pub table_of : ℕ → ℕ
table_of entry = bit_and entry 0x000FFFFFFFFFF000

-- `entry & !(dirty | accessed)`
abbrev pub undirtied : Bits → ℕ → ℕ
undirtied b entry = bit_and entry (2 ^ 64 - 1 - bit_or b.dirty b.accessed)

-- `for i in 0..page_count { bitmap.set_bit(first + i) }`
unfoldable pub set_bits : ℕ → ℕ → DirtyBitmap → DirtyBitmap
unfolding set_bit
set_bits zero first m = m
set_bits (suc n) first m = set_bits n (first + 1) (set_bit m first)

-- A leaf of `count` pages in the entry at `p`.
unfoldable pub scan_leaf : Bits → Bool → (count p : ℕ) → Scan → Scan
unfolding set_bits
scan_leaf b clear_ad count p s =
    let entry = s.words p in
    let marked = record s {
      bitmap = set_bits count (s.addr >> 12) s.bitmap;
      dirty_pages = s.dirty_pages + count;
    } in
    if has entry b.dirty
    then (if clear_ad
        then record marked { words = store p (undirtied b entry) s.words }
        else marked)
    else s

-- One entry of a page table, and the address after it.
abbrev pub scan_entry : Bits → Bool → (pt i : ℕ) → Scan → Scan
scan_entry b clear_ad pt i s =
    let seen : Scan =
      if has (s.words (word pt i)) b.present then scan_leaf b clear_ad 1 (word pt i) s else s in
    record seen { addr = sat_add64 s.addr 4096 }

abbrev pub at_directory : ℕ → Bool
at_directory addr = bit_and addr ((1 << 21) - 1) == 0

-- The loop over a page table from entry `i` on, with `left` entries to go.
unfoldable pub scan_table : Bits → Bool → (limit pt : ℕ) → ℕ → ℕ → Scan → Scan
unfolding scan_leaf
scan_table b clear_ad limit pt zero i s = s
scan_table b clear_ad limit pt (suc left) i s =
    let next = scan_entry b clear_ad pt i s in
    let rest = scan_table b clear_ad limit pt left (i + 1) next in
    if ltb s.addr limit then (if at_directory next.addr then next else rest) else s

abbrev pub index : ℕ → ℕ → ℕ
index addr shift = bit_and (addr >> shift) 0x1FF

abbrev pub skip_to : ℕ → Scan → Scan
skip_to addr s = record s { addr = addr }

-- From the entry of the page directory at `p2` on.
unfoldable pub scan_directory : Bits → Bool → (limit p2 : ℕ) → Scan → Scan
unfolding scan_table
scan_directory b clear_ad limit p2 s =
    let i = index s.addr 12 in
    if not (has (s.words p2) b.present)
    then skip_to (sat_add64 s.addr (1 << 21)) s
    else if has (s.words p2) b.page_size
    then skip_to (u64 (((s.addr >> 21) + 1) << 21)) (scan_leaf b clear_ad (1 << (21 - 12)) p2 s)
    else scan_table b clear_ad limit (table_of (s.words p2)) (512 - i) i s

-- From the entry of the page directory pointer table at `p3` on.
unfoldable pub scan_pointer : Bits → Bool → (limit p3 : ℕ) → Scan → Scan
unfolding scan_directory
scan_pointer b clear_ad limit p3 s =
    if not (has (s.words p3) b.present)
    then skip_to (sat_add64 s.addr (1 << 30)) s
    else if has (s.words p3) b.page_size
    then skip_to (u64 (((s.addr >> 30) + 1) << 30)) (scan_leaf b clear_ad (1 << (30 - 12)) p3 s)
    else scan_directory b clear_ad limit (word (table_of (s.words p3)) (index s.addr 21)) s

-- The body of the loop.
unfoldable pub scan_step : Bits → Bool → (limit pml4 : ℕ) → Scan → Scan
unfolding scan_pointer
scan_step b clear_ad limit pml4 s =
    let pml4e = s.words (word pml4 (index s.addr 39)) in
    if not (has pml4e b.present)
    then skip_to (sat_add64 s.addr (1 << 39)) s
    else scan_pointer b clear_ad limit (word (table_of pml4e) (index s.addr 30)) s

unfoldable pub scan_loop : ℕ → Bits → Bool → (limit pml4 : ℕ) → Scan → Scan
unfolding scan_step
scan_loop zero b clear_ad limit pml4 s = s
scan_loop (suc fuel) b clear_ad limit pml4 s =
    let rest = scan_loop fuel b clear_ad limit pml4 (scan_step b clear_ad limit pml4 s) in
    if ltb s.addr limit then rest else s

-- The tables, the bitmap and the count after a scan. A round moves on by at least a page below the
-- limit, so a round for each page is fuel enough.
unfoldable pub scan :
    Bits → (pml4_phys limit : ℕ) → Bool → Words → DirtyBitmap → Words × DirtyBitmap × ℕ
unfolding scan_loop
scan b pml4_phys limit clear_ad mem bitmap =
    let s =
      scan_loop ((limit >> 12) + 1) b clear_ad limit (table_of pml4_phys)
        (record { addr = 0; words = mem; bitmap = bitmap; dirty_pages = 0 }) in
    if pml4_phys == 0 then (mem, bitmap, 0) else (s.words, s.bitmap, s.dirty_pages)
