-- ===== src/Iommu/Vtd/Tables/MapRange.antt =====
-- `map_range_4k` of src/iommu/vtd.rs: the whole range is translated afterwards, page by page, and
-- no other address changes.
use zerovisor.Base.{
  ℕ, suc, ◌+◌, ◌-◌, ◌*◌, ◌/◌, ◌^◌, ◌≤◌, ◌<◌, ◌≡◌, ◌≢◌, refl, ap, ◌∙◌, inl, inr, Bool, true, false,
  ◌&&◌, ◌==◌, if◌then◌else◌, arith, length, Bool-cases, ltb, leb, some, u64,
}
use zerovisor.Mm.Memory.{Memory}
use zerovisor.Iommu.Vtd.Tables.{map_page_4k, map_range_4k}
use zerovisor.Iommu.Vtd.Tables.Leaf.{Leaf, leaf4}
use zerovisor.Iommu.Vtd.Tables.Update.{IsTree, Updates}
use zerovisor.Iommu.Vtd.Tables.Entry.{small_entry}
use zerovisor.Iommu.Vtd.Tables.Small.{same_page}
use zerovisor.Iommu.Vtd.Tables.MapSmall.{is_large, map_page_4k-Updates}
use zerovisor.Iommu.Vtd.Tables.Range.{range_loop_inv}

-- Whether an address lies in the `n` pages from that of `iova` on.
abbrev pub in_pages : (iova n y : ℕ) → Bool
in_pages iova n y = leb (iova / 2 ^ 12) (y / 2 ^ 12) && ltb (y / 2 ^ 12) (iova / 2 ^ 12 + n)

-- The leaf that the mapping of a range puts at an address of it.
abbrev pub range_leaf : (iova pa : ℕ) (w x : Bool) → ℕ → Leaf
range_leaf iova pa w x y = Leaf.small (small_entry (pa + (y / 2 ^ 12 - iova / 2 ^ 12) * 4096) w x)

pub record Maps (cr3 iova pa n : ℕ) (w x : Bool) (m m' : Memory) : Type 0 where
  pub tree : IsTree cr3 m'
  pub leaves :
      (y : ℕ)
      → y < 2 ^ 48
      → leaf4 m'.words cr3 y
        ≡ (if in_pages iova n y then range_leaf iova pa w x y else leaf4 m.words cr3 y)
  pub pages_left : length m.pages ≤ length m'.pages + 3 * n

-- One more page of the range.
pub one_more_page {ℓ} :
    {A : Type ℓ} (iova k y : ℕ) (at_page : A) (inside : ℕ → A) (old : A)
    → (y / 2 ^ 12 ≡ iova / 2 ^ 12 + k → at_page ≡ inside y)
    → (if same_page (iova + k * 4096) y
        then at_page
        else if in_pages iova k y
        then inside y
        else old)
      ≡ (if in_pages iova (suc k) y then inside y else old)
one_more_page iova k y at_page inside old h = elim (Bool-cases (same_page (iova + k * 4096) y)) [
  | inl e ↦
      let page : y / 2 ^ 12 ≡ iova / 2 ^ 12 + k = ground arith in
      let hit : in_pages iova (suc k) y ≡ true = ground arith in rw (e, hit) (h page)
  | inr e ↦
      let away : y / 2 ^ 12 ≢ iova / 2 ^ 12 + k = λ q. absurd (ground arith) in
      let same : in_pages iova k y ≡ in_pages iova (suc k) y = ground arith in rw (e, same) refl
]

module _ (cr3 iova pa n : ℕ) (w x : Bool) (m : Memory) (tree : IsTree cr3 m)
    (iova_fits : iova + 4096 * n ≤ 2 ^ 48) (pa_fits : pa + 4096 * n ≤ 2 ^ 63)
    (enough : 3 * n ≤ length m.pages)
    (free : (y : ℕ)
      → y < 2 ^ 48
      → in_pages iova n y ≡ true
      → is_large (leaf4 m.words cr3 y) ≡ false) where
  abbrev body : ℕ → Memory → Memory
  body off = map_page_4k cr3 (u64 (iova + off)) (u64 (pa + off)) w x

  start : Maps cr3 iova pa 0 w x m m
  start = record {
    tree = tree;
    leaves = λ y f. let out : in_pages iova 0 y ≡ false = ground arith in rw out refl;
    pages_left = omega arith;
  }

  step :
      (k : ℕ) (m1 : Memory)
      → k < n
      → Maps cr3 iova pa k w x m m1
      → Maps cr3 iova pa (suc k) w x m (body (k * 4096) m1)
  step k m1 h p =
      let gpa : ℕ = iova + k * 4096 in
      let gpa_is : u64 (iova + k * 4096) ≡ iova + k * 4096 = omega arith in
      let hpa_is : u64 (pa + k * 4096) ≡ pa + k * 4096 = omega arith in
      let inside : in_pages iova n (iova + k * 4096) ≡ true = ground arith in
      let not_yet : in_pages iova k (iova + k * 4096) ≡ false = ground arith in
      let small : is_large (leaf4 m1.words cr3 (iova + k * 4096)) ≡ false =
        ap is_large (p.leaves (iova + k * 4096) (omega arith) ∙ rw not_yet refl)
        ∙ free (iova + k * 4096) (omega arith) inside in
      let one : Updates cr3 m1 (same_page (iova + k * 4096))
          (Leaf.small (small_entry (pa + k * 4096) w x))
          (map_page_4k cr3 (iova + k * 4096) (pa + k * 4096) w x m1) =
        map_page_4k-Updates cr3 (iova + k * 4096) m1 p.tree (omega arith)
          (omega (arith, p.pages_left)) small (pa + k * 4096) w x (omega arith) in
      rw (gpa_is, hpa_is)
        (record {
          tree = one.tree;
          leaves = λ y f.
              one.leaves y f
              ∙ ap
                  (λ l.
                    if same_page (iova + k * 4096) y
                    then Leaf.small (small_entry (pa + k * 4096) w x)
                    else l)
                  (p.leaves y f)
              ∙ one_more_page iova k y (Leaf.small (small_entry (pa + k * 4096) w x))
                  (range_leaf iova pa w x) (leaf4 m.words cr3 y)
                  (λ q. ap (λ a. Leaf.small (small_entry a w x)) (omega arith));
          pages_left = omega (arith, p.pages_left, one.pages_left);
        })

  -- `map_range_4k` ends with fuel for each page and one more, and then the addresses of the range,
  -- and no others, have a leaf of 4 KiB at their place in the physical range.
  pub map_range_4k-Maps :
      (fuel len : ℕ)
      → cr3 ≢ 0
      → 0 < len
      → len ≤ 4096 * n
      → 4096 * n < len + 4096
      → n < fuel
      → (m' : Memory) × (map_range_4k fuel cr3 iova pa len w x m ≡ some m')
        × Maps cr3 iova pa n w x m m'
  unfolding map_range_4k
  map_range_4k-Maps fuel len root some_len covers tight fuel_enough =
      let there : (cr3 == 0) ≡ false = ground arith in
      let any : (len == 0) ≡ false = ground arith in
      let (m', done, maps) =
        range_loop_inv (λ k m1. Maps cr3 iova pa k w x m m1) n 4096 len body (omega arith)
          (λ k h. omega arith) (λ k h. omega arith) step n fuel 0 m (omega arith) fuel_enough
          start in
      (m', rw (there, any) done, maps)
