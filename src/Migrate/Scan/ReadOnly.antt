-- ===== src/Migrate/Scan/ReadOnly.antt =====
-- A scan that is not asked to clear flags leaves the tables alone.
use zerovisor.Base.{
  either, ℕ, zero, suc, ◌+◌, ◌-◌, ◌≡◌, refl, ◌∙◌, false, not, arith, ltb, ◌==◌, if◌then◌else◌, ◌<<◌,
  ◌>>◌, sat_add64, u64, Bool-cases, inl, inr,
}
use zerovisor.Migrate.Bitmap.{DirtyBitmap}
use zerovisor.Mm.Memory.{Words, word}
use zerovisor.Migrate.Scan.{
  Bits, Scan, has, index, skip_to, table_of, scan_entry, at_directory, scan_leaf, scan_table,
  scan_directory, scan_pointer, scan_step, scan_loop, scan,
}

Keeps : Scan → Scan → Type 0
Keeps s r = r.words ≡ s.words

module _ (b : Bits) (limit : ℕ) where
  scan_leaf-Keeps : (n p : ℕ) (s : Scan) → Keeps s (scan_leaf b false n p s)
  unfolding scan_leaf Keeps
  scan_leaf-Keeps n p s = ground arith

  scan_table-Keeps : (pt left i : ℕ) (s : Scan) → Keeps s (scan_table b false limit pt left i s)
  unfolding scan_table Keeps
  scan_table-Keeps pt zero i s = refl
  scan_table-Keeps pt (suc left) i s =
      let next = scan_entry b false pt i s in
      let rest = scan_table b false limit pt left (i + 1) next in
      let same : next.words ≡ s.words =
        either (λ r. r.words ≡ s.words) (has (s.words (word pt i)) b.present)
          (scan_leaf b false 1 (word pt i) s) s (λ t. scan_leaf-Keeps 1 (word pt i) s)
          (λ t. refl) in
      either (Keeps s) (ltb s.addr limit) (if at_directory next.addr then next else rest) s
        (λ t.
          either (Keeps s) (at_directory next.addr) next rest (λ k. same)
            (λ k. scan_table-Keeps pt left (i + 1) next ∙ same))
        (λ t. refl)

  scan_directory-Keeps : (p2 : ℕ) (s : Scan) → Keeps s (scan_directory b false limit p2 s)
  unfolding scan_directory Keeps
  scan_directory-Keeps p2 s =
      let i = index s.addr 12 in
      let in_leaf =
        skip_to (u64 (((s.addr >> 21) + 1) << 21)) (scan_leaf b false (1 << (21 - 12)) p2 s) in
      let below = scan_table b false limit (table_of (s.words p2)) (512 - i) i s in
      either (Keeps s) (not (has (s.words p2) b.present)) (skip_to (sat_add64 s.addr (1 << 21)) s)
        (if has (s.words p2) b.page_size then in_leaf else below) (λ t. refl)
        (λ t.
          either (Keeps s) (has (s.words p2) b.page_size) in_leaf below
            (λ k. scan_leaf-Keeps (1 << (21 - 12)) p2 s)
            (λ k. scan_table-Keeps (table_of (s.words p2)) (512 - i) i s))

  scan_pointer-Keeps : (p3 : ℕ) (s : Scan) → Keeps s (scan_pointer b false limit p3 s)
  unfolding scan_pointer Keeps
  scan_pointer-Keeps p3 s =
      let in_leaf =
        skip_to (u64 (((s.addr >> 30) + 1) << 30)) (scan_leaf b false (1 << (30 - 12)) p3 s) in
      let p2 = word (table_of (s.words p3)) (index s.addr 21) in
      either (Keeps s) (not (has (s.words p3) b.present)) (skip_to (sat_add64 s.addr (1 << 30)) s)
        (if has (s.words p3) b.page_size then in_leaf else scan_directory b false limit p2 s)
        (λ t. refl)
        (λ t.
          either (Keeps s) (has (s.words p3) b.page_size) in_leaf
            (scan_directory b false limit p2 s) (λ k. scan_leaf-Keeps (1 << (30 - 12)) p3 s)
            (λ k. scan_directory-Keeps p2 s))

  scan_step-Keeps : (pml4 : ℕ) (s : Scan) → Keeps s (scan_step b false limit pml4 s)
  unfolding scan_step Keeps
  scan_step-Keeps pml4 s =
      let pml4e = s.words (word pml4 (index s.addr 39)) in
      let p3 = word (table_of pml4e) (index s.addr 30) in
      either (Keeps s) (not (has pml4e b.present)) (skip_to (sat_add64 s.addr (1 << 39)) s)
        (scan_pointer b false limit p3 s) (λ t. refl) (λ t. scan_pointer-Keeps p3 s)

  scan_loop-Keeps : (fuel pml4 : ℕ) (s : Scan) → Keeps s (scan_loop fuel b false limit pml4 s)
  unfolding scan_loop Keeps
  scan_loop-Keeps zero pml4 s = refl
  scan_loop-Keeps (suc fuel) pml4 s =
      let next = scan_step b false limit pml4 s in
      either (Keeps s) (ltb s.addr limit) (scan_loop fuel b false limit pml4 next) s
        (λ t. scan_loop-Keeps fuel pml4 next ∙ scan_step-Keeps pml4 s) (λ t. refl)

-- A scan without clearing leaves the tables as they are.
pub scan-keeps :
    (b : Bits) (pml4_phys limit : ℕ) (mem : Words) (bitmap : DirtyBitmap)
    → (scan b pml4_phys limit false mem bitmap).0 ≡ mem
unfolding scan Keeps
scan-keeps b pml4_phys limit mem bitmap = elim (Bool-cases (pml4_phys == 0)) [
  | inl t ↦ rw t refl
  | inr t ↦ rw t (
      scan_loop-Keeps b limit ((limit >> 12) + 1) (table_of pml4_phys)
        (record { addr = 0; words = mem; bitmap = bitmap; dirty_pages = 0 }))
]
