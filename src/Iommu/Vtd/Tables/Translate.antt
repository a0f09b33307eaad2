-- ===== src/Iommu/Vtd/Tables/Translate.antt =====
-- What the walk of src/iommu/vtd.rs finds after ranges have been mapped and unmapped.
use zerovisor.Base.{
  ℕ, ◌+◌, ◌-◌, ◌*◌, ◌/◌, ◌%◌, ◌^◌, ◌≤◌, ◌<◌, ◌≡◌, ◌≢◌, refl, ap, ◌∙◌, sym, inl, inr, Bool, true,
  false, ◌&&◌, if◌then◌else◌, arith, length, Bool-cases, ltb, leb, none, some, Option,
}
use zerovisor.Mm.Memory.{Words, Memory}
use zerovisor.Iommu.Vtd.Tables.{map_page_2m, map_range_4k, unmap_range_4k, walk_second_level}
use zerovisor.Iommu.Vtd.Tables.Leaf.{
  frame, large_frame, Leaf, leaf4, address, walk_second_level-leaf,
}
use zerovisor.Iommu.Vtd.Tables.Update.{IsTree}
use zerovisor.Iommu.Vtd.Tables.Entry.{
  small_entry, small_entry_lem, large_entry, large_entry_lem, rw_bit, nx_bit,
}
use zerovisor.Iommu.Vtd.Tables.Large.{same_large, map_page_2m-Updates}
use zerovisor.Iommu.Vtd.Tables.MapSmall.{is_large}
use zerovisor.Iommu.Vtd.Tables.MapRange.{in_pages, range_leaf, map_range_4k-Maps}
use zerovisor.Iommu.Vtd.Tables.UnmapRange.{without_small, unmap_range_4k-UnmapsRange}

abbrev pub in_range : (iova len y : ℕ) → Bool
in_range iova len y = leb iova y && ltb y (iova + len)

-- The address that a walk finds.
abbrev pub translation : Words → (cr3 y : ℕ) → Option ℕ
translation mem cr3 y = (walk_second_level mem cr3 y).0

small_address :
    (hpa : ℕ) (w x : Bool) → hpa < 2 ^ 63 → frame (small_entry hpa w x) ≡ frame hpa + nx_bit x
small_address hpa w x h = cases w x (small_entry_lem hpa w x h)
  where
    cases :
        (w x : Bool)
        → small_entry hpa w x ≡ frame hpa + (1 + rw_bit w + nx_bit x)
        → frame (small_entry hpa w x) ≡ frame hpa + nx_bit x
    cases true true e = omega arith
    cases true false e = omega arith
    cases false true e = omega arith
    cases false false e = omega arith

large_address :
    (hpa : ℕ) (w x : Bool)
    → hpa < 2 ^ 63
    → large_frame (large_entry hpa w x) ≡ large_frame hpa + nx_bit x
large_address hpa w x h = cases w x (large_entry_lem hpa w x h)
  where
    cases :
        (w x : Bool)
        → large_entry hpa w x ≡ large_frame hpa + (0x81 + rw_bit w + nx_bit x)
        → large_frame (large_entry hpa w x) ≡ large_frame hpa + nx_bit x
    cases true true e = omega arith
    cases true false e = omega arith
    cases false true e = omega arith
    cases false false e = omega arith

module _ (cr3 iova pa n : ℕ) (w x : Bool) (m : Memory) (tree : IsTree cr3 m) (root : cr3 ≢ 0)
    (some_pages : 0 < n) (iova_aligned : iova % 4096 ≡ 0) (pa_aligned : pa % 4096 ≡ 0)
    (iova_fits : iova + 4096 * n ≤ 2 ^ 48) (pa_fits : pa + 4096 * n ≤ 2 ^ 63)
    (enough : 3 * n ≤ length m.pages)
    (free : (y : ℕ)
      → y < 2 ^ 48
      → in_pages iova n y ≡ true
      → is_large (leaf4 m.words cr3 y) ≡ false)
    (fuel : ℕ) (fuel_enough : n < fuel) where
  in_range-in_pages : (y : ℕ) → in_pages iova n y ≡ in_range iova (4096 * n) y
  in_range-in_pages y = ground arith

  -- The address of a page of the range.
  range_address :
      (y : ℕ)
      → in_range iova (4096 * n) y ≡ true
      → address y (range_leaf iova pa w x y) ≡ some (pa + (y - iova) + nx_bit x)
  range_address y inside =
      let bounds : (iova ≤ y) × (y < iova + 4096 * n) = ground arith in
      let hpa : ℕ = pa + (y / 2 ^ 12 - iova / 2 ^ 12) * 4096 in
      let entry = small_address (pa + (y / 2 ^ 12 - iova / 2 ^ 12) * 4096) w x (omega arith) in
      ap (λ a. some (a + y % 2 ^ 12)) entry ∙ ap some (omega arith)

  by_range :
      (y : ℕ)
      → address y (if in_pages iova n y then range_leaf iova pa w x y else leaf4 m.words cr3 y) ≡ (
          if in_range iova (4096 * n) y
          then some (pa + (y - iova) + nx_bit x)
          else translation m.words cr3 y)
  by_range y = elim (Bool-cases (in_range iova (4096 * n) y)) [
    | inl e ↦ rw (in_range-in_pages y, e) (range_address y e)
    | inr e ↦ rw (in_range-in_pages y, e) (sym (walk_second_level-leaf m.words cr3 y root))
  ]

  -- After the range is mapped the walk finds each address of it at its place, with bit 63 where
  -- execution is forbidden, and all others as before.
  pub map_range_4k-walk :
      (m' : Memory) × (map_range_4k fuel cr3 iova pa (4096 * n) w x m ≡ some m')
      × ((y : ℕ)
          → y < 2 ^ 48
          → translation m'.words cr3 y ≡ (
              if in_range iova (4096 * n) y
              then some (pa + (y - iova) + nx_bit x)
              else translation m.words cr3 y))
  map_range_4k-walk =
      let (m', done, maps) =
        map_range_4k-Maps cr3 iova pa n w x m tree iova_fits pa_fits enough free fuel (4096 * n)
          root (omega arith) (omega arith) (omega arith) fuel_enough in
      (
        m',
        done,
        λ y f.
            walk_second_level-leaf m'.words cr3 y root
            ∙ ap (address y) (maps.leaves y f)
            ∙ by_range y,
      )

  taken :
      (y : ℕ)
      → let l = if in_pages iova n y then range_leaf iova pa w x y else leaf4 m.words cr3 y in
        address y (if in_pages iova n y then without_small l else l)
        ≡ (if in_range iova (4096 * n) y then none else translation m.words cr3 y)
  taken y = elim (Bool-cases (in_range iova (4096 * n) y)) [
    | inl e ↦ rw (in_range-in_pages y, e) refl
    | inr e ↦ rw (in_range-in_pages y, e) (sym (walk_second_level-leaf m.words cr3 y root))
  ]

  -- A range that is mapped and unmapped again has no translation, and all other addresses have
  -- theirs from before.
  pub unmap_range_4k-map_range_4k :
      (m1 m2 : Memory) × (map_range_4k fuel cr3 iova pa (4096 * n) w x m ≡ some m1)
      × (unmap_range_4k fuel cr3 iova (4096 * n) m1 ≡ some m2)
      × ((y : ℕ)
          → y < 2 ^ 48
          → translation m2.words cr3 y
            ≡ (if in_range iova (4096 * n) y then none else translation m.words cr3 y))
  unmap_range_4k-map_range_4k =
      let (m1, mapped, maps) =
        map_range_4k-Maps cr3 iova pa n w x m tree iova_fits pa_fits enough free fuel (4096 * n)
          root (omega arith) (omega arith) (omega arith) fuel_enough in
      let (m2, unmapped, unmaps) =
        unmap_range_4k-UnmapsRange cr3 iova n m1 maps.tree iova_fits fuel (4096 * n) root
          (omega arith) (omega arith) (omega arith) fuel_enough in
      (
        m1,
        m2,
        mapped,
        unmapped,
        λ y f.
            walk_second_level-leaf m2.words cr3 y root
            ∙ ap (address y) (
                unmaps.leaves y f
                ∙ ap (λ l. if in_pages iova n y then without_small l else l) (maps.leaves y f))
            ∙ taken y,
      )

without_small-large :
    (b : Bool) (l : Leaf) (e : ℕ)
    → l ≡ Leaf.large e
    → (if b then without_small l else l) ≡ Leaf.large e
without_small-large true l e h = ap without_small h
without_small-large false l e h = h

-- In well-formed tables with a root other than 0 and two free pages, a round of map_range_2m
-- maps the page of 2 MiB of an address below 2 ^ 48 to that of a physical address below 2 ^ 63.
-- Then unmap_range_4k over a range of one or more whole pages of 4 KiB, from an address on with
-- an end at most at 2 ^ 48 and with more fuel than pages, succeeds and leaves it: the walk still
-- finds each address of the page at its place, plus 2 ^ 63 where execution is forbidden.
pub unmap_range_4k-map_page_2m :
    (cr3 gpa hpa iova n y fuel : ℕ) (w x : Bool) (m : Memory)
    → IsTree cr3 m
    → cr3 ≢ 0
    → gpa < 2 ^ 48
    → hpa < 2 ^ 63
    → 2 ≤ length m.pages
    → iova + 4096 * n ≤ 2 ^ 48
    → 0 < n
    → n < fuel
    → y < 2 ^ 48
    → y / 2 ^ 21 ≡ gpa / 2 ^ 21
    → (m' : Memory) × (unmap_range_4k fuel cr3 iova (4096 * n) (map_page_2m cr3 gpa hpa w x m)
        ≡ some m')
      × (translation m'.words cr3 y ≡ some (hpa / 2 ^ 21 * 2 ^ 21 + nx_bit x + y % 2 ^ 21))
unmap_range_4k-map_page_2m cr3 gpa hpa iova n y fuel w x m tree root g h enough fits pos f yf page =
    let maps = map_page_2m-Updates cr3 gpa hpa w x m tree g enough h in
    let (m', done, unmaps) =
      unmap_range_4k-UnmapsRange cr3 iova n (map_page_2m cr3 gpa hpa w x m) maps.tree fits fuel
        (4096 * n) root (omega arith) (omega arith) (omega arith) f in
    let hit : same_large gpa y ≡ true = ground arith in
    let mapped : leaf4 (map_page_2m cr3 gpa hpa w x m).words cr3 y
        ≡ Leaf.large (large_entry hpa w x) =
      maps.leaves y yf ∙ rw hit refl in
    (
      m',
      done,
      walk_second_level-leaf m'.words cr3 y root
          ∙ ap (address y) (
              unmaps.leaves y yf
              ∙ without_small-large (in_pages iova n y) _ (large_entry hpa w x) mapped)
          ∙ ap (λ a. some (a + y % 2 ^ 21)) (large_address hpa w x h ∙ omega arith),
    )
