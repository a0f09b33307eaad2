-- ===== src/Mm/Tables.antt =====
-- src/mm/ept.rs and src/mm/npt.rs: identity-mapped nested page tables. The builders of the two
-- files, and those with options, differ in the flags of their entries alone, which are an argument.
-- When an allocation fails the result is `none`; what was written to pages until then is not kept.
pub mod Identity
pub mod Eptp
use zerovisor.Base.{
  ℕ, zero, suc, ◌+◌, ◌-◌, ◌*◌, ◌^◌, Bool, true, false, List, [], ◌∷◌, Option, none, some, ltb, leb,
  ◌==◌, if◌then◌else◌, bit_and, bit_or, u64, ◌<<◌, ◌>>◌, ◌>>=◌,
}
use zerovisor.Mm.Memory.{Words, word, Memory, alloc_zeroed_page, put}

-- The bits of an entry that points to a table, of a leaf of 1 GiB or 2 MiB, and of one of 4 KiB.
pub record Flags : Type 0 where
  pub link : ℕ
  pub large : ℕ
  pub small : ℕ

-- `EPT_R | EPT_W`, with `EPT_X` if execution is allowed.
abbrev pub ept_link : Bool → ℕ
ept_link allow_x = bit_or (bit_or (1 << 0) (1 << 1)) (if allow_x then 1 << 2 else 0)

-- `EPT_MEMTYPE_WB`, `EPT_IGNORE_PAT` and `EPT_PAGE_SIZE`.
abbrev pub ept_flags : Bool → Flags
ept_flags allow_x = record {
  link = ept_link allow_x;
  large = bit_or (bit_or (bit_or (ept_link allow_x) (6 << 3)) (1 << 6)) (1 << 7);
  small = bit_or (bit_or (ept_link allow_x) (6 << 3)) (1 << 6);
}

-- `NPT_PTE_PRESENT` and `NPT_PAGE_SIZE`.
abbrev pub npt_flags : Flags
npt_flags = record {
  link = bit_or (bit_or (1 << 0) (1 << 1)) (1 << 2);
  large = bit_or (bit_or (bit_or (1 << 0) (1 << 1)) (1 << 2)) (1 << 7);
  small = bit_or (bit_or (1 << 0) (1 << 1)) (1 << 2);
}

abbrev pub num_gb : ℕ → ℕ
num_gb limit = u64 (limit + (1 << 30) - 1) >> 30

-- A loop over the entries of one table from `i` and `phys` on: each gets the masked address with
-- the flags, the address grows by `size`, and the loop ends early at the limit.
unfoldable pub fill : (mask flags size limit table : ℕ) → ℕ → ℕ → ℕ → Memory → Memory
fill mask flags size limit table zero i phys m = m
fill mask flags size limit table (suc n) i phys m =
    let m' = put (word table i) (bit_or (bit_and phys mask) flags) m in
    let phys' = u64 (phys + size) in
    let rest = fill mask flags size limit table n (i + 1) phys' m' in
    if leb limit phys' then m' else rest

-- The PML4 and the PDPT, linked.
unfoldable pub top_tables : Flags → Memory → Option (ℕ × ℕ × Memory)
unfolding alloc_zeroed_page
top_tables f m = do
  (pml4, m1) ← alloc_zeroed_page m
  (pdpt, m2) ← alloc_zeroed_page m1
  some (pml4, pdpt, put pml4 (bit_or pdpt f.link) m2)

unfoldable pub build_identity_1g : Flags → ℕ → Memory → Option (ℕ × Memory)
unfolding top_tables fill
build_identity_1g f limit m = if limit == 0 then none else (do
  (pml4, pdpt, m1) ← top_tables f m
  some (pml4, fill 0x000FFFFFC0000000 f.large (1 << 30) limit pdpt (num_gb limit) 0 0 m1))

-- The directories of `n` chunks of 1 GiB from the `i`-th on.
unfoldable pub directories_2m : ℕ → Flags → ℕ → ℕ → ℕ → Memory → Option Memory
unfolding fill alloc_zeroed_page
directories_2m zero f limit pdpt i m = some m
directories_2m (suc n) f limit pdpt i m = do
  (pd, m1) ← alloc_zeroed_page m
  let m2 = put (word pdpt i) (bit_or pd f.link) m1
  directories_2m n f limit pdpt (i + 1)
      (fill 0xFFFFFFFFFFE00000 f.large (2 * 1024 * 1024) limit pd 512 0 (u64 (i << 30)) m2)

unfoldable pub build_identity_2m : Flags → ℕ → Memory → Option (ℕ × Memory)
unfolding top_tables directories_2m
build_identity_2m f limit m = if limit == 0 then none else (do
  (pml4, pdpt, m1) ← top_tables f m
  m2 ← directories_2m (num_gb limit) f limit pdpt 0 m1
  some (pml4, m2))

-- The page tables of `n` chunks of 2 MiB from the `j`-th on.
unfoldable pub page_tables : ℕ → Flags → (limit pd base : ℕ) → ℕ → Memory → Option Memory
unfolding fill alloc_zeroed_page
page_tables zero f limit pd base j m = some m
page_tables (suc n) f limit pd base j m = do
  (pt, m1) ← alloc_zeroed_page m
  let m2 = put (word pd j) (bit_or pt f.link) m1
  let m3 = fill 0x000FFFFFFFFFF000 f.small 4096 limit pt 512 0 (u64 (base + (j << 21))) m2
  let rest = page_tables n f limit pd base (j + 1) m3
  if leb limit (u64 (base + ((j + 1) << 21))) then some m3 else rest

unfoldable pub directories_4k : ℕ → Flags → ℕ → ℕ → ℕ → Memory → Option Memory
unfolding page_tables
directories_4k zero f limit pdpt i m = some m
directories_4k (suc n) f limit pdpt i m = do
  (pd, m1) ← alloc_zeroed_page m
  m2 ← page_tables 512 f limit pd (u64 (i << 30)) 0 (put (word pdpt i) (bit_or pd f.link) m1)
  directories_4k n f limit pdpt (i + 1) m2

unfoldable pub build_identity_4k : Flags → ℕ → Memory → Option (ℕ × Memory)
unfolding top_tables directories_4k
build_identity_4k f limit m = if limit == 0 then none else (do
  (pml4, pdpt, m1) ← top_tables f m
  m2 ← directories_4k (num_gb limit) f limit pdpt 0 m1
  some (pml4, m2))

-- `EptCaps` and `EptOptions`
pub record EptCaps : Type 0 where
  pub large_page_2m : Bool
  pub large_page_1g : Bool

pub record EptOptions : Type 0 where
  pub allow_execute : Bool
  pub enable_ad : Bool

unfoldable pub build_best : Flags → ℕ → EptCaps → Memory → Option (ℕ × Memory)
unfolding build_identity_1g build_identity_2m build_identity_4k
build_best f limit caps m =
    if caps.large_page_1g
    then build_identity_1g f limit m
    else if caps.large_page_2m
    then build_identity_2m f limit m
    else build_identity_4k f limit m

unfoldable pub build_identity_best : ℕ → EptCaps → Memory → Option (ℕ × Memory)
unfolding build_best
build_identity_best limit caps m = build_best (ept_flags true) limit caps m

unfoldable pub build_identity_best_with_opts :
    ℕ → EptCaps → EptOptions → Memory → Option (ℕ × Memory)
unfolding build_best
build_identity_best_with_opts limit caps opts m =
    build_best (ept_flags opts.allow_execute) limit caps m

unfoldable pub eptp_from_pml4 : ℕ → ℕ
eptp_from_pml4 pml4_phys = bit_or (bit_or (bit_and pml4_phys 0x000FFFFFFFFFF000) 6) (3 << 3)

unfoldable pub eptp_from_pml4_with_opts : ℕ → EptOptions → ℕ
unfolding eptp_from_pml4
eptp_from_pml4_with_opts pml4_phys opts =
    let e = eptp_from_pml4 pml4_phys in if opts.enable_ad then bit_or e (1 << 6) else e

abbrev pub ncr3_from_pml4 : ℕ → ℕ
ncr3_from_pml4 pml4_phys = bit_and pml4_phys 0x000FFFFFFFFFF000
