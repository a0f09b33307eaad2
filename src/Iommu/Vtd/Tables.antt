-- ===== src/Iommu/Vtd/Tables.antt =====
-- src/iommu/vtd.rs: the second-level page tables of a domain. A page that cannot be allocated
-- leaves the entry as it is, and the walk goes on at the address that the entry holds.
pub mod Leaf
pub mod Update
pub mod Descend
pub mod Entry
pub mod Large
pub mod Small
pub mod MapSmall
pub mod Unmap
pub mod Range
pub mod MapRange
pub mod UnmapRange
pub mod Translate
pub mod Overwrite
use zerovisor.Base.{
  ℕ, zero, suc, ◌+◌, ◌*◌, Bool, not, ◌||◌, Option, none, some, ltb, ◌==◌, if◌then◌else◌, bit_and,
  bit_or, u64, ◌<<◌, ◌>>◌,
}
use zerovisor.Mm.Memory.{Words, word, Memory, alloc_zeroed_page, put}

-- `PTE_P`, `PTE_RW`, `PTE_PS` and `PTE_NX`
abbrev pub pte_p : ℕ
pte_p = 1 << 0

abbrev pub pte_rw : ℕ
pte_rw = 1 << 1

abbrev pub pte_ps : ℕ
pte_ps = 1 << 7

abbrev pub pte_nx : ℕ
pte_nx = 1 << 63

-- The bits of an entry, or of an address, above those of a page of 4 KiB and of 2 MiB.
abbrev pub frame_mask : ℕ
frame_mask = 0xFFFFFFFFFFFFF000

abbrev pub large_mask : ℕ
large_mask = 0xFFFFFFFFFFE00000

-- The index of an address at the table whose entries cover `2 ^ shift` bytes.
abbrev pub index : ℕ → ℕ → ℕ
index shift x = bit_and (x >> shift) 0x1FF

abbrev pub link_table : ℕ → Memory → Option (ℕ × Memory) → Memory
link_table e m none = m
link_table e m (some (p, m')) = put e (bit_or (bit_and p frame_mask) (bit_or pte_p pte_rw)) m'

unfoldable pub ensure_table_entry : ℕ → ℕ → Memory → ℕ × Memory
unfolding alloc_zeroed_page
ensure_table_entry table idx m =
    let e = word table idx in
    let m' = if bit_and (m.words e) pte_p == 0 then link_table e m (alloc_zeroed_page m) else m in
    (bit_and (m'.words e) frame_mask, m')

-- The flags of a leaf; whether it may be read is not looked at.
abbrev pub leaf_flags : ℕ → Bool → Bool → ℕ
leaf_flags flags w x =
    let flags' = if w then bit_or flags pte_rw else flags in
    if not x then bit_or flags' pte_nx else flags'

-- One round of `map_range_4k`.
unfoldable pub map_page_4k : (cr3 gpa hpa : ℕ) (w x : Bool) → Memory → Memory
map_page_4k cr3 gpa hpa w x m =
    let (pdpt, m1) = ensure_table_entry cr3 (index 39 gpa) m in
    let (pd, m2) = ensure_table_entry pdpt (index 30 gpa) m1 in
    let (pt, m3) = ensure_table_entry pd (index 21 gpa) m2 in
    put (word pt (index 12 gpa)) (bit_or (bit_and hpa frame_mask) (leaf_flags pte_p w x)) m3

-- One round of `map_range_2m`.
unfoldable pub map_page_2m : (cr3 gpa hpa : ℕ) (w x : Bool) → Memory → Memory
map_page_2m cr3 gpa hpa w x m =
    let (pdpt, m1) = ensure_table_entry cr3 (index 39 gpa) m in
    let (pd, m2) = ensure_table_entry pdpt (index 30 gpa) m1 in
    put (word pd (index 21 gpa))
      (bit_or (bit_and hpa large_mask) (leaf_flags (bit_or pte_p pte_ps) w x)) m2

-- One round of `unmap_range_4k`: a missing table and a page of 2 MiB are passed over.
unfoldable pub unmap_page_4k : (cr3 gpa : ℕ) → Memory → Memory
unmap_page_4k cr3 gpa m =
    let v4 = m.words (word cr3 (index 39 gpa)) in
    let v3 = m.words (word (bit_and v4 frame_mask) (index 30 gpa)) in
    let v2 = m.words (word (bit_and v3 frame_mask) (index 21 gpa)) in
    if bit_and v4 pte_p == 0
    then m
    else if bit_and v3 pte_p == 0
    then m
    else if bit_and v2 pte_p == 0 || not (bit_and v2 pte_ps == 0)
    then m
    else put (word (bit_and v2 frame_mask) (index 12 gpa)) 0 m

-- `while off < len`, with `off` advanced by the size of a page; `none` when the fuel runs out.
unfoldable pub range_loop :
    ℕ → (size len : ℕ) → (ℕ → Memory → Memory) → (off : ℕ) → Memory → Option Memory
range_loop zero size len body off m = none
range_loop (suc fuel) size len body off m =
    let rest = range_loop fuel size len body (u64 (off + size)) (body off m) in
    if ltb off len then rest else some m

unfoldable pub map_range_4k : (fuel cr3 iova pa len : ℕ) (w x : Bool) → Memory → Option Memory
unfolding range_loop map_page_4k
map_range_4k fuel cr3 iova pa len w x m =
    if cr3 == 0 || len == 0
    then some m
    else range_loop fuel 4096 len (λ off. map_page_4k cr3 (u64 (iova + off)) (u64 (pa + off)) w x) 0
        m

unfoldable pub map_range_2m : (fuel cr3 iova pa len : ℕ) (w x : Bool) → Memory → Option Memory
unfolding range_loop map_page_2m
map_range_2m fuel cr3 iova pa len w x m =
    if cr3 == 0 || len == 0
    then some m
    else range_loop fuel (2 * 1024 * 1024) len
        (λ off. map_page_2m cr3 (u64 (iova + off)) (u64 (pa + off)) w x) 0 m

unfoldable pub unmap_range_4k : (fuel cr3 iova len : ℕ) → Memory → Option Memory
unfolding range_loop unmap_page_4k
unmap_range_4k fuel cr3 iova len m =
    if cr3 == 0 || len == 0
    then some m
    else range_loop fuel 4096 len (λ off. unmap_page_4k cr3 (u64 (iova + off))) 0 m

-- The raw entries that a walk met, zero where it did not come to.
pub record Entries : Type 0 where
  pub pml4e : ℕ
  pub pdpte : ℕ
  pub pde : ℕ
  pub pte : ℕ

abbrev pub met : ℕ → ℕ → ℕ → ℕ → Entries
met a b c d = record { pml4e = a; pdpte = b; pde = c; pte = d }

-- What a walk of a table that is there returns, by the entries that it reads.
unfoldable pub answer : (v4 v3 v2 v1 iova : ℕ) → Option ℕ × Entries
answer v4 v3 v2 v1 iova =
    if bit_and v4 pte_p == 0
    then (none, met v4 0 0 0)
    else if bit_and v3 pte_p == 0
    then (none, met v4 v3 0 0)
    else if bit_and v2 pte_p == 0
    then (none, met v4 v3 v2 0)
    else if not (bit_and v2 pte_ps == 0)
    then (some (bit_or (bit_and v2 large_mask) (bit_and iova 0x1FFFFF)), met v4 v3 v2 0)
    else if bit_and v1 pte_p == 0
    then (none, met v4 v3 v2 v1)
    else (some (bit_or (bit_and v1 frame_mask) (bit_and iova 0xFFF)), met v4 v3 v2 v1)

unfoldable pub walk_second_level : Words → (cr3 iova : ℕ) → Option ℕ × Entries
walk_second_level mem cr3 iova =
    let v4 = mem (word cr3 (index 39 iova)) in
    let v3 = mem (word (bit_and v4 frame_mask) (index 30 iova)) in
    let v2 = mem (word (bit_and v3 frame_mask) (index 21 iova)) in
    let v1 = mem (word (bit_and v2 frame_mask) (index 12 iova)) in
    if cr3 == 0 then (none, met 0 0 0 0) else answer v4 v3 v2 v1 iova
