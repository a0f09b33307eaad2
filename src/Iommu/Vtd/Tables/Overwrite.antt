-- ===== src/Iommu/Vtd/Tables/Overwrite.antt =====
-- `map_range_4k` of src/iommu/vtd.rs at an address that a page of 2 MiB translates already.
use zerovisor.Base.{
  ℕ, ◌+◌, ◌*◌, ◌/◌, ◌%◌, ◌^◌, ◌≤◌, ◌<◌, ◌≡◌, ◌≢◌, refl, ap, ◌∙◌, Bool, true, false, ◌==◌, arith,
  length, bit_and,
}
use zerovisor.Mm.Memory.{Words, Memory, word, put}
use zerovisor.Iommu.Vtd.Tables.{ensure_table_entry, map_page_2m, map_page_4k, pte_p}
use zerovisor.Iommu.Vtd.Tables.Leaf.{
  frame, large_frame, Leaf, leaf1, leaf2, leaf3, leaf4, index_lem, bit_and-frame_mask,
  bit_and-pte_p,
}
use zerovisor.Iommu.Vtd.Tables.Update.{IsTree}
use zerovisor.Iommu.Vtd.Tables.Entry.{small_entry, large_entry, large_entry_lem, rw_bit}
use zerovisor.Iommu.Vtd.Tables.Large.{same_large, map_page_2m-Updates}

-- An entry that is present is followed, be it that of a large page or not.
ensure_table_entry-present :
    (t i : ℕ) (m : Memory)
    → m.words (word t i) % 2 ≡ 1
    → ensure_table_entry t i m ≡ (frame (m.words (word t i)), m)
unfolding ensure_table_entry
ensure_table_entry-present t i m h =
    let there : (bit_and (m.words (word t i)) pte_p == 0) ≡ false =
      ground (arith, bit_and-pte_p (m.words (word t i))) in
    rw (there, bit_and-frame_mask (m.words (word t i))) refl

leaf1-ne-large : (mem : Words) (t y e : ℕ) → leaf1 mem t y ≢ Leaf.large e
unfolding leaf1
leaf1-ne-large mem t y e h = ground arith

leaf2-eq-large :
    (mem : Words) (t y e : ℕ)
    → leaf2 mem t y ≡ Leaf.large e
    → (mem (word t (y / 2 ^ 21 % 512)) % 2 ≡ 1) × (mem (word t (y / 2 ^ 21 % 512)) ≡ e)
unfolding leaf2
leaf2-eq-large mem t y e h =
    let v = mem (word t (y / 2 ^ 21 % 512)) in ground (arith, leaf1-ne-large mem (frame v) y e)

leaf3-eq-large :
    (mem : Words) (t y e : ℕ)
    → leaf3 mem t y ≡ Leaf.large e
    → let v = mem (word t (y / 2 ^ 30 % 512)) in
      (v % 2 ≡ 1) × (leaf2 mem (frame v) y ≡ Leaf.large e)
unfolding leaf3
leaf3-eq-large mem t y e h = ground arith

leaf4-eq-large :
    (mem : Words) (t y e : ℕ)
    → leaf4 mem t y ≡ Leaf.large e
    → let v = mem (word t (y / 2 ^ 39 % 512)) in
      (v % 2 ≡ 1) × (leaf3 mem (frame v) y ≡ Leaf.large e)
unfolding leaf4
leaf4-eq-large mem t y e h = ground arith

-- The page is taken for a page table: the entry goes into it, and nothing else is written.
pub map_page_4k-at_large :
    (cr3 y e hpa : ℕ) (w x : Bool) (m : Memory)
    → leaf4 m.words cr3 y ≡ Leaf.large e
    → map_page_4k cr3 y hpa w x m ≡ put (word (frame e) (y / 2 ^ 12 % 512)) (small_entry hpa w x) m
unfolding map_page_4k
map_page_4k-at_large cr3 y e hpa w x m h =
    let v4 = m.words (word cr3 (y / 2 ^ 39 % 512)) in
    let v3 = m.words (word (frame v4) (y / 2 ^ 30 % 512)) in
    let a = leaf4-eq-large m.words cr3 y e h in
    let b = leaf3-eq-large m.words (frame v4) y e a.1 in
    let c = leaf2-eq-large m.words (frame v3) y e b.1 in
    simp
      (
        index_lem,
        ensure_table_entry-present cr3 (y / 2 ^ 39 % 512) m a.0,
        ensure_table_entry-present (frame v4) (y / 2 ^ 30 % 512) m b.0,
        ensure_table_entry-present (frame v3) (y / 2 ^ 21 % 512) m c.0,
        c.1,
      )
      refl

-- After an executable page of 2 MiB is mapped, mapping a page of 4 KiB at one of its addresses
-- writes an entry into the memory of the large page, and changes nothing else.
pub map_page_4k-map_page_2m :
    (cr3 gpa hpa y pa : ℕ) (w w' x' : Bool) (m : Memory)
    → IsTree cr3 m
    → gpa < 2 ^ 48
    → hpa < 2 ^ 63
    → 2 ≤ length m.pages
    → y < 2 ^ 48
    → y / 2 ^ 21 ≡ gpa / 2 ^ 21
    → let m1 = map_page_2m cr3 gpa hpa w true m in
      map_page_4k cr3 y pa w' x' m1
      ≡ put (word (hpa / 2 ^ 21 * 2 ^ 21) (y / 2 ^ 12 % 512)) (small_entry pa w' x') m1
map_page_4k-map_page_2m cr3 gpa hpa y pa w w' x' m tree g h enough yf page =
    let e : ℕ = large_entry hpa w true in
    let maps = map_page_2m-Updates cr3 gpa hpa w true m tree g enough h in
    let hit : same_large gpa y ≡ true = ground arith in
    map_page_4k-at_large cr3 y (large_entry hpa w true) pa w' x' (map_page_2m cr3 gpa hpa w true m)
      (maps.leaves y yf ∙ rw hit refl)
    ∙ ap
        (λ a.
          put (word a (y / 2 ^ 12 % 512)) (small_entry pa w' x') (map_page_2m cr3 gpa hpa w true m))
        (cases w (large_entry_lem hpa w true h))
  where
    cases :
        (w : Bool)
        → large_entry hpa w true ≡ large_frame hpa + (0x81 + rw_bit w + 0)
        → frame (large_entry hpa w true) ≡ hpa / 2 ^ 21 * 2 ^ 21
    cases true e = omega arith
    cases false e = omega arith
