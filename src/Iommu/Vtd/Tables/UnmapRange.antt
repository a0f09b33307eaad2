-- ===== src/Iommu/Vtd/Tables/UnmapRange.antt =====
-- `unmap_range_4k` of src/iommu/vtd.rs: the pages of 4 KiB of the range lose their translation; no
-- other address changes, and neither does one that a page of 2 MiB translates.
use zerovisor.Base.{
  ℕ, suc, ◌+◌, ◌*◌, ◌^◌, ◌≤◌, ◌<◌, ◌≡◌, ◌≢◌, refl, ap, ◌∙◌, Bool, true, false, not, ◌&&◌, ◌==◌,
  if◌then◌else◌, arith, some, u64,
}
use zerovisor.Mm.Memory.{Memory}
use zerovisor.Iommu.Vtd.Tables.{unmap_page_4k, unmap_range_4k}
use zerovisor.Iommu.Vtd.Tables.Leaf.{Leaf, leaf4}
use zerovisor.Iommu.Vtd.Tables.Update.{IsTree}
use zerovisor.Iommu.Vtd.Tables.Small.{same_page}
use zerovisor.Iommu.Vtd.Tables.MapSmall.{is_large}
use zerovisor.Iommu.Vtd.Tables.MapRange.{in_pages, one_more_page}
use zerovisor.Iommu.Vtd.Tables.Unmap.{unmap_page_4k-Unmaps}
use zerovisor.Iommu.Vtd.Tables.Range.{range_loop_inv}

-- What is left of a leaf where small ones are taken.
abbrev pub without_small : Leaf → Leaf
without_small Leaf.absent = Leaf.absent
without_small (Leaf.large e) = Leaf.large e
without_small (Leaf.small e) = Leaf.absent

pub record UnmapsRange (cr3 iova n : ℕ) (m m' : Memory) : Type 0 where
  pub tree : IsTree cr3 m'
  pub leaves :
      (y : ℕ)
      → y < 2 ^ 48
      → leaf4 m'.words cr3 y
        ≡ (if in_pages iova n y then without_small (leaf4 m.words cr3 y) else leaf4 m.words cr3 y)
  pub pages_kept : m'.pages ≡ m.pages

-- The cases of one page are those of `without_small`.
loses-without_small :
    (b : Bool) (l : Leaf)
    → (if b && not (is_large l) then Leaf.absent else l) ≡ (if b then without_small l else l)
loses-without_small true Leaf.absent = refl
loses-without_small true (Leaf.large e) = refl
loses-without_small true (Leaf.small e) = refl
loses-without_small false l = refl

without_small_twice :
    (b : Bool) (l : Leaf) → without_small (if b then without_small l else l) ≡ without_small l
without_small_twice true Leaf.absent = refl
without_small_twice true (Leaf.large e) = refl
without_small_twice true (Leaf.small e) = refl
without_small_twice false l = refl

module _ (cr3 iova n : ℕ) (m : Memory) (tree : IsTree cr3 m)
    (iova_fits : iova + 4096 * n ≤ 2 ^ 48) where
  abbrev body : ℕ → Memory → Memory
  body off = unmap_page_4k cr3 (u64 (iova + off))

  start : UnmapsRange cr3 iova 0 m m
  start = record {
    tree = tree;
    leaves = λ y f. let out : in_pages iova 0 y ≡ false = ground arith in rw out refl;
    pages_kept = refl;
  }

  step :
      (k : ℕ) (m1 : Memory)
      → k < n
      → UnmapsRange cr3 iova k m m1
      → UnmapsRange cr3 iova (suc k) m (body (k * 4096) m1)
  step k m1 h p =
      let gpa_is : u64 (iova + k * 4096) ≡ iova + k * 4096 = omega arith in
      let one = unmap_page_4k-Unmaps cr3 (iova + k * 4096) m1 p.tree (omega arith) in
      rw gpa_is (record {
        tree = one.tree;
        leaves = λ y f.
            let l = leaf4 m.words cr3 y in
            let page = same_page (iova + k * 4096) y in
            one.leaves y f
            ∙ loses-without_small page (leaf4 m1.words cr3 y)
            ∙ ap (λ v. if page then without_small v else v) (p.leaves y f)
            ∙ ap (λ v. if page then v else if in_pages iova k y then without_small l else l)
                (without_small_twice (in_pages iova k y) l)
            ∙ one_more_page iova k y (without_small l) (λ _. without_small l) l (λ _. refl);
        pages_kept = one.pages_kept ∙ p.pages_kept;
      })

  -- `unmap_range_4k` ends with fuel for each page and one more, and takes the leaves of 4 KiB of the
  -- range, and nothing else.
  pub unmap_range_4k-UnmapsRange :
      (fuel len : ℕ)
      → cr3 ≢ 0
      → 0 < len
      → len ≤ 4096 * n
      → 4096 * n < len + 4096
      → n < fuel
      → (m' : Memory) × (unmap_range_4k fuel cr3 iova len m ≡ some m') × UnmapsRange cr3 iova n m m'
  unfolding unmap_range_4k
  unmap_range_4k-UnmapsRange fuel len root some_len covers tight fuel_enough =
      let there : (cr3 == 0) ≡ false = ground arith in
      let any : (len == 0) ≡ false = ground arith in
      let (m', done, unmaps) =
        range_loop_inv (λ k m1. UnmapsRange cr3 iova k m m1) n 4096 len body (omega arith)
          (λ k h. omega arith) (λ k h. omega arith) step n fuel 0 m (omega arith) fuel_enough
          start in
      (m', rw (there, any) done, unmaps)
