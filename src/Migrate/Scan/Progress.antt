-- ===== src/Migrate/Scan/Progress.antt =====
-- The scan of the nested tables comes to its limit, and leaves the tables alone if it is not asked
-- to clear flags.
use zerovisor.Base.{
  either, ℕ, zero, suc, ◌+◌, ◌-◌, ◌*◌, ◌%◌, ◌^◌, ◌≤◌, ◌<◌, ◌≡◌, Bool, not, arith, ltb,
  if◌then◌else◌, ◌<<◌, ◌>>◌, sat_add64, u64, ltb→lt,
}
use zerovisor.Bits.Fields.{bit_and_mask}
use zerovisor.Mm.Memory.{word}
use zerovisor.Migrate.Scan.{
  Bits, Scan, has, index, skip_to, table_of, scan_entry, at_directory, scan_leaf, scan_table,
  scan_directory, scan_pointer, scan_step, scan_loop,
}

-- From `addr` to `addr'` the walk has moved on by a page at least, to the start of a page.
record Moves (addr addr' : ℕ) : Type 0 where
  on : addr + 4096 ≤ addr'
  aligned : addr' % 4096 ≡ 0

addr-scan_leaf :
    (b : Bits) (clear_ad : Bool) (n p : ℕ) (s : Scan) → (scan_leaf b clear_ad n p s).addr ≡ s.addr
unfolding scan_leaf
addr-scan_leaf b clear_ad n p s = ground arith

module _ (b : Bits) (clear_ad : Bool) (limit : ℕ) (fits : limit ≤ 2 ^ 63) where
  scan_table-aligned :
      (pt left i : ℕ) (s : Scan)
      → s.addr % 4096 ≡ 0
      → ((scan_table b clear_ad limit pt left i s).addr % 4096 ≡ 0)
        × (s.addr ≤ (scan_table b clear_ad limit pt left i s).addr)
  unfolding scan_table
  scan_table-aligned pt zero i s a = (a, omega arith)
  scan_table-aligned pt (suc left) i s a =
      let next = scan_entry b clear_ad pt i s in
      let rest = scan_table b clear_ad limit pt left (i + 1) next in
      either (λ r. (r.addr % 4096 ≡ 0) × (s.addr ≤ r.addr)) (ltb s.addr limit)
        (if at_directory next.addr then next else rest) s
        (λ t.
          let below = ltb→lt s.addr limit t in
          let on : next.addr ≡ s.addr + 4096 = omega arith in
          let ih = scan_table-aligned pt left (i + 1) next (omega arith) in
          either (λ r. (r.addr % 4096 ≡ 0) × (s.addr ≤ r.addr)) (at_directory next.addr) next rest
            (λ k. (omega arith, omega arith)) (λ k. (ih.0, omega (arith, ih.1))))
        (λ t. (a, omega arith))

  scan_table-Moves :
      (pt left i : ℕ) (s : Scan)
      → s.addr % 4096 ≡ 0
      → s.addr < limit
      → 0 < left
      → Moves s.addr (scan_table b clear_ad limit pt left i s).addr
  unfolding scan_table
  scan_table-Moves pt zero i s a h k = absurd (omega arith)
  scan_table-Moves pt (suc left) i s a h k =
      let next = scan_entry b clear_ad pt i s in
      let rest = scan_table b clear_ad limit pt left (i + 1) next in
      let on : next.addr ≡ s.addr + 4096 = omega arith in
      let more = scan_table-aligned pt left (i + 1) next (omega arith) in
      either (λ r. Moves s.addr r.addr) (ltb s.addr limit)
        (if at_directory next.addr then next else rest) s
        (λ t.
          either (λ r. Moves s.addr r.addr) (at_directory next.addr) next rest
            (λ k. record { on = omega arith; aligned = omega arith })
            (λ k. record { on = omega (arith, more.1); aligned = more.0 }))
        (λ t. absurd (ground arith))

  module _ (s : Scan) (a : s.addr % 4096 ≡ 0) (h : s.addr < limit) where
    scan_directory-Moves : (p2 : ℕ) → Moves s.addr (scan_directory b clear_ad limit p2 s).addr
    unfolding scan_directory
    scan_directory-Moves p2 =
        let i = index s.addr 12 in
        let in_leaf =
          skip_to (u64 (((s.addr >> 21) + 1) << 21)) (scan_leaf b clear_ad (1 << (21 - 12)) p2 s) in
        let below = scan_table b clear_ad limit (table_of (s.words p2)) (512 - i) i s in
        either (λ r. Moves s.addr r.addr) (not (has (s.words p2) b.present))
          (skip_to (sat_add64 s.addr (1 << 21)) s)
          (if has (s.words p2) b.page_size then in_leaf else below)
          (λ t. record { on = omega arith; aligned = omega arith })
          (λ t.
            either (λ r. Moves s.addr r.addr) (has (s.words p2) b.page_size) in_leaf below
              (λ k. record { on = omega arith; aligned = omega arith })
              (λ k.
                scan_table-Moves (table_of (s.words p2)) (512 - i) i s a h
                  (omega (arith, bit_and_mask 9 (s.addr >> 12)))))

    scan_pointer-Moves : (p3 : ℕ) → Moves s.addr (scan_pointer b clear_ad limit p3 s).addr
    unfolding scan_pointer
    scan_pointer-Moves p3 =
        let in_leaf =
          skip_to (u64 (((s.addr >> 30) + 1) << 30)) (scan_leaf b clear_ad (1 << (30 - 12)) p3 s) in
        let p2 = word (table_of (s.words p3)) (index s.addr 21) in
        either (λ r. Moves s.addr r.addr) (not (has (s.words p3) b.present))
          (skip_to (sat_add64 s.addr (1 << 30)) s)
          (if has (s.words p3) b.page_size then in_leaf else scan_directory b clear_ad limit p2 s)
          (λ t. record { on = omega arith; aligned = omega arith })
          (λ t.
            either (λ r. Moves s.addr r.addr) (has (s.words p3) b.page_size) in_leaf
              (scan_directory b clear_ad limit p2 s)
              (λ k. record { on = omega arith; aligned = omega arith })
              (λ k. scan_directory-Moves p2))

    scan_step-Moves : (pml4 : ℕ) → Moves s.addr (scan_step b clear_ad limit pml4 s).addr
    unfolding scan_step
    scan_step-Moves pml4 =
        let pml4e = s.words (word pml4 (index s.addr 39)) in
        let p3 = word (table_of pml4e) (index s.addr 30) in
        either (λ r. Moves s.addr r.addr) (not (has pml4e b.present))
          (skip_to (sat_add64 s.addr (1 << 39)) s) (scan_pointer b clear_ad limit p3 s)
          (λ t. record { on = omega arith; aligned = omega arith }) (λ t. scan_pointer-Moves p3)

  scan_loop-reaches :
      (fuel pml4 : ℕ) (s : Scan)
      → s.addr % 4096 ≡ 0
      → limit ≤ s.addr + fuel * 4096
      → limit ≤ (scan_loop fuel b clear_ad limit pml4 s).addr
  unfolding scan_loop
  scan_loop-reaches zero pml4 s a h = omega arith
  scan_loop-reaches (suc fuel) pml4 s a h =
      either (λ r. limit ≤ r.addr) (ltb s.addr limit)
        (scan_loop fuel b clear_ad limit pml4 (scan_step b clear_ad limit pml4 s)) s
        (λ t.
          let m = scan_step-Moves s a (ltb→lt _ _ t) pml4 in
          scan_loop-reaches fuel pml4 (scan_step b clear_ad limit pml4 s) m.aligned
            (omega (arith, m.on)))
        (λ t. ground (arith, t))

-- Up to 2 ^ 63 the fuel of a scan is enough: the walk comes to the limit.
pub scan-reaches :
    (b : Bits) (clear_ad : Bool) (limit pml4 : ℕ) (s : Scan)
    → limit ≤ 2 ^ 63
    → s.addr ≡ 0
    → limit ≤ (scan_loop ((limit >> 12) + 1) b clear_ad limit pml4 s).addr
scan-reaches b clear_ad limit pml4 s fits e =
    scan_loop-reaches b clear_ad limit fits ((limit >> 12) + 1) pml4 s (omega arith) (omega arith)
