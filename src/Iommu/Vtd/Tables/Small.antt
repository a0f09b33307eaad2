-- ===== src/Iommu/Vtd/Tables/Small.antt =====
-- `map_range_4k` and `unmap_range_4k` of src/iommu/vtd.rs, one page: a write to the page table of an
-- address changes the leaf of the addresses of its page alone.
use zerovisor.Base.{
  ℕ, ◌/◌, ◌%◌, ◌^◌, ◌≤◌, ◌<◌, ◌≡◌, ◌≢◌, ap, ◌∙◌, inl, inr, Bool, ◌==◌, if◌then◌else◌, arith,
  Bool-cases,
}
use zerovisor.Mm.Memory.{Words, word, Memory, put}
use zerovisor.Iommu.Vtd.Tables.Leaf.{frame, Leaf, leaf1, leaf4}
use zerovisor.Iommu.Vtd.Tables.Update
use zerovisor.Iommu.Vtd.Tables.Update.{IsTree, leaf2-path, leaf1-path}
use zerovisor.Iommu.Vtd.Tables.Descend.{ReachedTable}

abbrev pub same_page : ℕ → ℕ → Bool
same_page x y = y / 2 ^ 12 == x / 2 ^ 12

abbrev pub leaf_of : ℕ → Leaf
leaf_of e = if e % 2 == 0 then Leaf.absent else Leaf.small e

leaf1-leaf_of :
    (mem : Words) (t i1 y e : ℕ)
    → y / 2 ^ 12 % 512 ≡ i1
    → mem (word t i1) ≡ e
    → leaf1 mem t y ≡ leaf_of e
unfolding leaf1
leaf1-leaf_of mem t i1 y e j a = ground arith

-- An entry written to the page table of an address.
module _ (cr3 gpa e pd pt : ℕ) (m : Memory) (q : ReachedTable cr3 gpa m pd pt) where
  open q use {above}
  open above use {level, pre, tables, pdpt}

  abbrev idx : ℕ
  idx = gpa / 2 ^ 12 % 512

  abbrev after : Memory
  after = put (word pt idx) e m

  inner : (1 ≤ level pt) × (level pt ≤ 2)
  inner = omega (arith, q.pt_level)

  other : (s i : ℕ) → 2 ≤ level s → i < 512 → after.words (word s i) ≡ m.words (word s i)
  other s i h k =
      let apart : s ≢ pt = λ u. absurd (omega (arith, ap level u, q.pt_level)) in
      Update.other level pre m pt idx e tables inner.0 inner.1 (omega arith) s i (omega arith) k
        (inl apart)

  pub after-IsTree : IsTree cr3 after
  after-IsTree = record {
    level = level;
    pre = pre;
    tables =
        Update.written-Tables level pre m pt idx e tables inner.0 inner.1 (omega arith)
          (λ two. absurd (omega (arith, q.pt_level, two)));
    root = above.root_level;
    whole = above.root_pre;
  }

  hit_leaf : (y : ℕ) → y / 2 ^ 12 ≡ gpa / 2 ^ 12 → leaf4 after.words cr3 y ≡ leaf_of e
  hit_leaf y page =
      let i4 = gpa / 2 ^ 39 % 512 in
      let i3 = gpa / 2 ^ 30 % 512 in
      let i2 = gpa / 2 ^ 21 % 512 in
      let a = other cr3 i4 (omega (arith, above.root_level)) (omega arith) in
      let b = other pdpt i3 (omega (arith, above.pdpt_level)) (omega arith) in
      let c = other pd i2 (omega (arith, above.pd_level)) (omega arith) in
      leaf2-path after.words cr3 pdpt pd i4 i3 y (omega arith) (omega arith)
        (omega (arith, a, above.top_present)) (ap frame a ∙ above.top_leads)
        (omega (arith, b, above.present)) (ap frame b ∙ above.leads)
      ∙ leaf1-path after.words pd pt i2 y (omega arith) (omega (arith, c, q.pd_present))
          (omega (arith, c, q.pd_small)) (ap frame c ∙ q.pd_leads)
      ∙ leaf1-leaf_of after.words pt idx y e (omega arith)
          (Update.here level pre m pt idx e tables inner.0 inner.1 (omega arith))

  pub leaves :
      (y : ℕ)
      → y < 2 ^ 48
      → leaf4 after.words cr3 y ≡ (if same_page gpa y then leaf_of e else leaf4 m.words cr3 y)
  leaves y fits = elim (Bool-cases (same_page gpa y)) [
    | inl u ↦ rw u (hit_leaf y (ground arith))
    | inr u ↦ rw u (
        Update.leaf4-written level pre m pt idx e tables inner.0 inner.1 (omega arith) cr3 y
          above.root_level above.root_pre fits (λ _ v. absurd (ground (arith, q.pt_pre, v)))
          (λ two. absurd (omega (arith, q.pt_level, two))))
  ]
