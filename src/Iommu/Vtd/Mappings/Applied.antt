-- ===== src/Iommu/Vtd/Mappings/Applied.antt =====
-- A mapping of pages of 4 KiB that has been applied is found by `verify_mappings`, and `unmap_range`
-- takes it out again.
use zerovisor.Base.{
  ℕ, ◌+◌, ◌-◌, ◌*◌, ◌%◌, ◌^◌, ◌≤◌, ◌<◌, ◌≡◌, ◌≢◌, refl, ◌∙◌, true, false, [], ◌∷◌, none, some,
  arith, bit_and, bit_or, ◌==◌, if◌then◌else◌, get_or, length, u64,
}
use zerovisor.Iommu.State.{Mapping}
use zerovisor.Iommu.Vtd.Tables.{frame_mask}
use zerovisor.Iommu.Vtd.Tables.Leaf.{leaf4, bit_and-frame_mask}
use zerovisor.Iommu.Vtd.Tables.Update.{IsTree}
use zerovisor.Iommu.Vtd.Tables.Entry.{nx_bit}
use zerovisor.Iommu.Vtd.Tables.MapSmall.{is_large}
use zerovisor.Iommu.Vtd.Tables.MapRange.{in_pages}
use zerovisor.Iommu.Vtd.Tables.Translate.{
  in_range, translation, map_range_4k-walk, unmap_range_4k-map_range_4k,
}
use zerovisor.Iommu.Vtd.Contexts.{Vtd, ensure_domain_slptptr, get_domain_slptptr}
use zerovisor.Iommu.Vtd.Mappings.{apply_mappings, verify_mappings, unmap_range}

module _ (a : Mapping) (v : Vtd) (cr3 n fuel : ℕ) (length_is : a.len ≡ 4096 * n)
    (tables : get_or v.slptptr (bit_and a.domid 0xF) none ≡ some cr3) (tree : IsTree cr3 v.memory)
    (root : cr3 ≢ 0) (some_pages : 0 < n) (iova_aligned : a.iova % 4096 ≡ 0)
    (pa_aligned : a.pa % 4096 ≡ 0) (iova_fits : a.iova + 4096 * n ≤ 2 ^ 48)
    (pa_fits : a.pa + 4096 * n ≤ 2 ^ 63) (enough : 3 * n ≤ length v.memory.pages)
    (free : (y : ℕ)
      → y < 2 ^ 48
      → in_pages a.iova n y ≡ true
      → is_large (leaf4 v.memory.words cr3 y) ≡ false)
    (fuel_enough : n < fuel)
    (not_2m : (bit_and (bit_or (bit_or a.iova a.pa) a.len) (2 * 1024 * 1024 - 1) == 0)
      ≡ false) where
  ensured-eq : ensure_domain_slptptr a.domid v ≡ (some cr3, v)
  unfolding ensure_domain_slptptr
  ensured-eq = rw tables refl

  -- A mapping is applied that makes 4 KiB pages: the domain's tables are well-formed, with a
  -- root other than 0 and three free pages for each page of the range, and no large page covers
  -- an address of the range; iova, pa and len are multiples of 4096 but not all of 2 MiB, len is
  -- not 0, and the range ends at most at 2 ^ 48 and its physical range at most at 2 ^ 63; the
  -- fuel is above the number of pages. Then applying it succeeds; the walk finds each address of
  -- the range at its place in the physical range, plus 2 ^ 63 where execution is forbidden, and
  -- every other address below 2 ^ 48 as before; and verify_mappings has no issue with the
  -- mapping.
  pub verify_mappings-apply_mappings :
      (v' : Vtd) × (apply_mappings fuel (a ∷ []) v ≡ some v')
      × ((y : ℕ)
          → y < 2 ^ 48
          → translation v'.memory.words cr3 y ≡ (
              if in_range a.iova a.len y
              then some (a.pa + (y - a.iova) + nx_bit a.perm_x)
              else translation v.memory.words cr3 y))
      × (verify_mappings (a ∷ []) v' ≡ 0)
  unfolding apply_mappings verify_mappings get_domain_slptptr
  verify_mappings-apply_mappings =
      let (m', mapped, walks) =
        map_range_4k-walk cr3 a.iova a.pa n a.perm_w a.perm_x v.memory tree root some_pages
          iova_aligned pa_aligned iova_fits pa_fits enough free fuel fuel_enough in
      let last_is : bit_and (u64 (a.iova + (4096 * n - 1))) frame_mask ≡ a.iova + 4096 * (n - 1) =
        bit_and-frame_mask (u64 (a.iova + (4096 * n - 1))) ∙ omega arith in
      let first_in : in_range a.iova (4096 * n) a.iova ≡ true = ground arith in
      let last_in : in_range a.iova (4096 * n) (a.iova + 4096 * (n - 1)) ≡ true = ground arith in
      let first : translation m'.words cr3 a.iova
          ≡ some (a.pa + (a.iova - a.iova) + nx_bit a.perm_x) =
        walks a.iova (omega arith) ∙ rw first_in refl in
      let final : translation m'.words cr3 (a.iova + 4096 * (n - 1))
          ≡ some (a.pa + (a.iova + 4096 * (n - 1) - a.iova) + nx_bit a.perm_x) =
        walks (a.iova + 4096 * (n - 1)) (omega arith) ∙ rw last_in refl in
      (
        record v { memory = m' },
        rw (ensured-eq, not_2m, length_is, mapped) refl,
        rw length_is walks,
        rw (tables, length_is, last_is, first, final) refl,
      )

  -- A mapping is applied that makes 4 KiB pages: the domain's tables are well-formed, with a
  -- root other than 0 and three free pages for each page of the range, and no large page covers
  -- an address of the range; iova, pa and len are multiples of 4096 but not all of 2 MiB, len is
  -- not 0, and the range ends at most at 2 ^ 48 and its physical range at most at 2 ^ 63; the
  -- fuel is above the number of pages. Applying it and then unmapping its range both succeed;
  -- after that the walk finds no address of the range, and every other address below 2 ^ 48 as
  -- it was before the mapping was applied.
  pub unmap_range-apply_mappings :
      (v1 v2 : Vtd) × (apply_mappings fuel (a ∷ []) v ≡ some v1)
      × (unmap_range fuel a.domid a.iova a.len v1 ≡ some v2)
      × ((y : ℕ)
          → y < 2 ^ 48
          → translation v2.memory.words cr3 y
            ≡ (if in_range a.iova a.len y then none else translation v.memory.words cr3 y))
  unfolding apply_mappings unmap_range get_domain_slptptr
  unmap_range-apply_mappings =
      let (m1, m2, mapped, unmapped, walks) =
        unmap_range_4k-map_range_4k cr3 a.iova a.pa n a.perm_w a.perm_x v.memory tree root
          some_pages iova_aligned pa_aligned iova_fits pa_fits enough free fuel fuel_enough in
      (
        record v { memory = m1 },
        record v { memory = m2 },
        rw (ensured-eq, not_2m, length_is, mapped) refl,
        rw (tables, length_is, unmapped) refl,
        rw length_is walks,
      )
