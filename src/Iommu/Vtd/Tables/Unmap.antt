-- ===== src/Iommu/Vtd/Tables/Unmap.antt =====
-- `unmap_range_4k` of src/iommu/vtd.rs, one page: a page of 4 KiB is taken out, and nothing else.
use zerovisor.Base.{
  ℕ, ◌*◌, ◌/◌, ◌%◌, ◌^◌, ◌<◌, ◌≡◌, refl, ap, ◌∙◌, ◌⊎◌, inl, inr, Bool, true, false, not, ◌&&◌, ◌||◌,
  ◌==◌, if◌then◌else◌, arith, Bool-cases,
}
use zerovisor.Mm.Memory.{Words, word, Memory, put}
use zerovisor.Iommu.Vtd.Tables.{unmap_page_4k}
use zerovisor.Iommu.Vtd.Tables.Leaf.{
  frame, Leaf, leaf1, leaf2, leaf3, leaf4, index_lem, bit_and-frame_mask, bit_and-pte_p,
  bit_and-pte_ps,
}
use zerovisor.Iommu.Vtd.Tables.Update.{IsTree, leaf2-path, leaf1-path}
use zerovisor.Iommu.Vtd.Tables.Descend.{ReachedTable}
use zerovisor.Iommu.Vtd.Tables.Small.{same_page, after-IsTree, leaves}
use zerovisor.Iommu.Vtd.Tables.MapSmall.{is_large}

-- The leaf of an address whose path ends before a page table.
module _ (mem : Words) (cr3 i4 i3 i2 y : ℕ) (j4 : y / 2 ^ 39 % 512 ≡ i4)
    (j3 : y / 2 ^ 30 % 512 ≡ i3) (j2 : y / 2 ^ 21 % 512 ≡ i2) where
  abbrev e4 : ℕ
  e4 = mem (word cr3 i4)

  abbrev e3 : ℕ
  e3 = mem (word (frame e4) i3)

  abbrev e2 : ℕ
  e2 = mem (word (frame e3) i2)

  ends4 : e4 % 2 ≡ 0 → leaf4 mem cr3 y ≡ Leaf.absent
  unfolding leaf4
  ends4 a = ground arith

  ends3 : e4 % 2 ≡ 1 → e3 % 2 ≡ 0 → leaf4 mem cr3 y ≡ Leaf.absent
  unfolding leaf4 leaf3
  ends3 a b = ground arith

  ends2 : e4 % 2 ≡ 1 → e3 % 2 ≡ 1 → e2 % 2 ≡ 0 → leaf4 mem cr3 y ≡ Leaf.absent
  unfolding leaf4 leaf3 leaf2
  ends2 a b c = ground arith

  ends_large :
      e4 % 2 ≡ 1 → e3 % 2 ≡ 1 → e2 % 2 ≡ 1 → e2 / 2 ^ 7 % 2 ≡ 1 → leaf4 mem cr3 y ≡ Leaf.large e2
  unfolding leaf4 leaf3 leaf2
  ends_large a b c d = ground arith

is_large-leaf1 : (mem : Words) (t y : ℕ) → is_large (leaf1 mem t y) ≡ false
unfolding leaf1
is_large-leaf1 mem t y = ground arith

-- The addresses that lose their leaf.
abbrev pub loses : Words → ℕ → ℕ → ℕ → Bool
loses mem cr3 gpa y = same_page gpa y && not (is_large (leaf4 mem cr3 y))

pub record Unmaps (cr3 gpa : ℕ) (m m' : Memory) : Type 0 where
  pub tree : IsTree cr3 m'
  pub leaves :
      (y : ℕ)
      → y < 2 ^ 48
      → leaf4 m'.words cr3 y
        ≡ (if loses m.words cr3 gpa y then Leaf.absent else leaf4 m.words cr3 y)
  pub pages_kept : m'.pages ≡ m.pages

module _ (cr3 gpa : ℕ) (m : Memory) (tree : IsTree cr3 m) (fits : gpa < 2 ^ 48) where
  abbrev i4 : ℕ
  i4 = gpa / 2 ^ 39 % 512

  abbrev i3 : ℕ
  i3 = gpa / 2 ^ 30 % 512

  abbrev i2 : ℕ
  i2 = gpa / 2 ^ 21 % 512

  abbrev v4 : ℕ
  v4 = m.words (word cr3 i4)

  abbrev v3 : ℕ
  v3 = m.words (word (frame v4) i3)

  abbrev v2 : ℕ
  v2 = m.words (word (frame v3) i2)

  abbrev cleared : Memory
  cleared = put (word (frame v2) (gpa / 2 ^ 12 % 512)) 0 m

  unmapped-eq : unmap_page_4k cr3 gpa m ≡ (
      if v4 % 2 == 0
      then m
      else if v3 % 2 == 0
      then m
      else if v2 % 2 == 0 || not (v2 / 2 ^ 7 % 2 * 2 ^ 7 == 0)
      then m
      else cleared)
  unfolding unmap_page_4k
  unmapped-eq = simp (index_lem, bit_and-frame_mask, bit_and-pte_p, bit_and-pte_ps) refl

  -- Nothing is written where no address of the page has a small leaf.
  nothing :
      ((y : ℕ)
        → y / 2 ^ 12 ≡ gpa / 2 ^ 12
        → (leaf4 m.words cr3 y ≡ Leaf.absent) ⊎ (is_large (leaf4 m.words cr3 y) ≡ true))
      → Unmaps cr3 gpa m m
  nothing h = record {
    tree = tree;
    leaves = λ y y_fits. elim (Bool-cases (same_page gpa y)) [
      | inl e ↦ elim (h y (ground arith)) [ inl a ↦ ground arith | inr l ↦ ground arith ]
      | inr e ↦ rw e refl
    ];
    pages_kept = refl;
  }

  module _ (p4 : v4 % 2 ≡ 1) (p3 : v3 % 2 ≡ 1) (p2 : v2 % 2 ≡ 1) (small : v2 / 2 ^ 7 % 2 ≡ 0) where
    at_pdpt : (tree.level (frame v4) ≡ 3) × (tree.pre (frame v4) ≡ i4)
    at_pdpt =
        let q =
          tree.tables.linked cr3 i4 (omega arith) (omega (arith, tree.root)) p4
            (λ two. absurd (omega (arith, tree.root))) in
        omega (arith, q, tree.root, tree.whole)

    at_pd : (tree.level (frame v3) ≡ 2) × (tree.pre (frame v3) ≡ gpa / 2 ^ 30)
    at_pd =
        let q =
          tree.tables.linked (frame v4) i3 (omega arith) (omega (arith, at_pdpt)) p3
            (λ two. absurd (omega (arith, at_pdpt))) in
        omega (arith, q, at_pdpt)

    at_pt : (tree.level (frame v2) ≡ 1) × (tree.pre (frame v2) ≡ gpa / 2 ^ 21)
    at_pt =
        let q =
          tree.tables.linked (frame v3) i2 (omega arith) (omega (arith, at_pd)) p2 (λ two. small) in
        omega (arith, q, at_pd)

    reached : ReachedTable cr3 gpa m (frame v3) (frame v2)
    reached = record {
      above = record {
        level = tree.level;
        pre = tree.pre;
        tables = tree.tables;
        root_level = tree.root;
        root_pre = tree.whole;
        pdpt = frame v4;
        pdpt_level = at_pdpt.0;
        pd_level = at_pd.0;
        pd_pre = at_pd.1;
        top_present = p4;
        top_leads = refl;
        present = p3;
        leads = refl;
      };
      pt_level = at_pt.0;
      pt_pre = at_pt.1;
      pd_present = p2;
      pd_small = small;
      pd_leads = refl;
    }

    never_large : (y : ℕ) → y / 2 ^ 12 ≡ gpa / 2 ^ 12 → is_large (leaf4 m.words cr3 y) ≡ false
    never_large y page =
        let at_table =
          leaf2-path m.words cr3 (frame v4) (frame v3) i4 i3 y (omega arith) (omega arith) p4 refl
            p3 refl
          ∙ leaf1-path m.words (frame v3) (frame v2) i2 y (omega arith) p2 small refl in
        ap is_large at_table ∙ is_large-leaf1 m.words (frame v2) y

    taken : Unmaps cr3 gpa m cleared
    taken = record {
      tree = after-IsTree cr3 gpa 0 (frame v3) (frame v2) m reached;
      leaves = λ y y_fits.
          let written = leaves cr3 gpa 0 (frame v3) (frame v2) m reached y y_fits in
          elim (Bool-cases (same_page gpa y)) [
            | inl e ↦ let l = never_large y (ground arith) in rw (e, l) (written ∙ rw e refl)
            | inr e ↦ rw e (written ∙ rw e refl)
          ];
      pages_kept = refl;
    }

  -- The last test, at the page directory.
  at_directory :
      v4 % 2 ≡ 1
      → v3 % 2 ≡ 1
      → Unmaps cr3 gpa m (if v2 % 2 == 0 || not (v2 / 2 ^ 7 % 2 * 2 ^ 7 == 0) then m else cleared)
  at_directory p4 p3 = elim (Bool-cases (v2 % 2 == 0)) [
    | inl a ↦ rw a (
        nothing (λ y q. inl (
          ends2 m.words cr3 i4 i3 i2 y (omega arith) (omega arith) (omega arith) p4 p3
            (ground arith))))
    | inr a ↦ elim (Bool-cases (v2 / 2 ^ 7 % 2 * 2 ^ 7 == 0)) [
      | inl b ↦ rw (a, b) (taken p4 p3 (ground arith) (ground arith))
      | inr b ↦
          rw (a, b)
            (nothing (λ y q. inr (
              ap is_large (
                ends_large m.words cr3 i4 i3 i2 y (omega arith) (omega arith) (omega arith) p4 p3
                  (ground arith) (ground arith)))))
    ]
  ]

  -- `unmap_page_4k` takes the leaf of 4 KiB from the addresses of its page, and leaves all others
  -- and the large pages.
  pub unmap_page_4k-Unmaps : Unmaps cr3 gpa m (unmap_page_4k cr3 gpa m)
  unmap_page_4k-Unmaps = elim (Bool-cases (v4 % 2 == 0)) [
    | inl a4 ↦
        rw (unmapped-eq, a4)
          (nothing (λ y q. inl (
            ends4 m.words cr3 i4 i3 i2 y (omega arith) (omega arith) (omega arith) (ground arith))))
    | inr a4 ↦ elim (Bool-cases (v3 % 2 == 0)) [
      | inl a3 ↦
          rw (unmapped-eq, a4, a3)
            (nothing (λ y q. inl (
              ends3 m.words cr3 i4 i3 i2 y (omega arith) (omega arith) (omega arith) (ground arith)
                (ground arith))))
      | inr a3 ↦ rw (unmapped-eq, a4, a3) (at_directory (ground arith) (ground arith))
    ]
  ]
