-- ===== src/Iommu/Vtd/Tables/MapSmall.antt =====
-- `map_range_4k` of src/iommu/vtd.rs, one page: the tables on the path are made, and the leaf of the
-- page is put.
use zerovisor.Base.{
  ℕ, ◌+◌, ◌/◌, ◌%◌, ◌^◌, ◌≤◌, ◌<◌, ◌≡◌, refl, ap, ap₂, ◌∙◌, sym, Bool, true, false, ◌==◌,
  if◌then◌else◌, arith, length,
}
use zerovisor.Mm.Memory.{Words, word, Memory, put}
use zerovisor.Iommu.Vtd.Tables.{ensure_table_entry, map_page_4k}
use zerovisor.Iommu.Vtd.Tables.Leaf.{frame, Leaf, leaf2, leaf4, index_lem}
use zerovisor.Iommu.Vtd.Trees.Ensure.{Ensures, ensure_table_entry-Ensures}
use zerovisor.Iommu.Vtd.Tables.Update.{IsTree, Updates, leaf2-path}
use zerovisor.Iommu.Vtd.Tables.Descend
use zerovisor.Iommu.Vtd.Tables.Descend.{Reached, ReachedTable}
use zerovisor.Iommu.Vtd.Tables.Entry.{small_entry, small_entry_lem, rw_bit, nx_bit}
use zerovisor.Iommu.Vtd.Tables.Small.{same_page, leaf_of, after-IsTree, leaves}

abbrev pub is_large : Leaf → Bool
is_large (Leaf.large e) = true
is_large leaf = false

entry_present : (hpa : ℕ) (w x : Bool) → hpa < 2 ^ 63 → small_entry hpa w x % 2 ≡ 1
entry_present hpa w x h = bits w x (small_entry_lem hpa w x h)
  where
    bits :
        (w x : Bool)
        → small_entry hpa w x ≡ frame hpa + (1 + rw_bit w + nx_bit x)
        → small_entry hpa w x % 2 ≡ 1
    bits true true e = omega arith
    bits true false e = omega arith
    bits false true e = omega arith
    bits false false e = omega arith

large-leaf2 :
    (mem : Words) (t y : ℕ)
    → is_large (leaf2 mem t y) ≡ false
    → mem (word t (y / 2 ^ 21 % 512)) % 2 ≡ 1
    → mem (word t (y / 2 ^ 21 % 512)) / 2 ^ 7 % 2 ≡ 0
unfolding leaf2
large-leaf2 mem t y h p = ground arith

-- The path to the page table of an address that no large page covers, made where it is missing.
module _ (cr3 gpa : ℕ) (m : Memory) (tree : IsTree cr3 m) (fits : gpa < 2 ^ 48)
    (enough : 3 ≤ length m.pages) (not_large : is_large (leaf4 m.words cr3 gpa) ≡ false) where
  pub two_left : 2 ≤ length m.pages
  two_left = omega arith

  abbrev pub pd : ℕ
  pd = (Descend.r3 cr3 gpa m tree fits two_left).0

  abbrev pub below_pdpt : Memory
  below_pdpt = (Descend.r3 cr3 gpa m tree fits two_left).1

  path : Reached cr3 gpa below_pdpt pd
  path = Descend.reached cr3 gpa m tree fits two_left

  abbrev pub r2 : ℕ × Memory
  r2 = ensure_table_entry pd (gpa / 2 ^ 21 % 512) below_pdpt

  table : Ensures path.level path.pre below_pdpt pd (gpa / 2 ^ 21 % 512) r2.0 r2.1
  table =
      let at_pd =
        leaf2-path below_pdpt.words cr3 path.pdpt pd (gpa / 2 ^ 39 % 512) (gpa / 2 ^ 30 % 512) gpa
          refl refl path.top_present path.top_leads path.present path.leads in
      let same = Descend.same_leaves cr3 gpa m tree fits two_left gpa in
      let small : is_large (leaf2 below_pdpt.words pd gpa) ≡ false =
        ap is_large (sym at_pd ∙ same) ∙ not_large in
      ensure_table_entry-Ensures path.level path.pre below_pdpt pd (gpa / 2 ^ 21 % 512) path.tables
        (omega (arith, path.pd_level)) (omega arith)
        (λ _ p. large-leaf2 below_pdpt.words pd gpa small p)
        (omega (arith, Descend.pages_left cr3 gpa m tree fits two_left))

  tags : (s : ℕ) → 2 ≤ path.level s → (table.level' s ≡ path.level s) × (table.pre' s ≡ path.pre s)
  tags s h = table.keeps_tags s (omega arith)

  pub reached_table : ReachedTable cr3 gpa r2.1 pd r2.0
  reached_table =
      let a =
        table.kept cr3 (gpa / 2 ^ 39 % 512) (omega (arith, path.root_level)) (omega arith)
          path.top_present in
      let b =
        table.kept path.pdpt (gpa / 2 ^ 30 % 512) (omega (arith, path.pdpt_level)) (omega arith)
          path.present in
      record {
        above = record {
          level = table.level';
          pre = table.pre';
          tables = table.tables;
          root_level = omega (arith, tags cr3 (omega (arith, path.root_level)), path.root_level);
          root_pre = omega (arith, tags cr3 (omega (arith, path.root_level)), path.root_pre);
          pdpt = path.pdpt;
          pdpt_level =
              omega (arith, tags path.pdpt (omega (arith, path.pdpt_level)), path.pdpt_level);
          pd_level = omega (arith, tags pd (omega (arith, path.pd_level)), path.pd_level);
          pd_pre = omega (arith, tags pd (omega (arith, path.pd_level)), path.pd_pre);
          top_present = omega (arith, a, path.top_present);
          top_leads = ap frame a ∙ path.top_leads;
          present = omega (arith, b, path.present);
          leads = ap frame b ∙ path.leads;
        };
        pt_level = omega (arith, table.below, path.pd_level);
        pt_pre = omega (arith, table.place, path.pd_pre);
        pd_present = table.present;
        pd_small = table.is_table path.pd_level;
        pd_leads = table.leads;
      }

  pub same_leaves : (y : ℕ) → leaf4 r2.1.words cr3 y ≡ leaf4 m.words cr3 y
  same_leaves y =
      table.same cr3 y path.root_level ∙ Descend.same_leaves cr3 gpa m tree fits two_left y

  pub pages_left : length m.pages ≤ length r2.1.pages + 3
  pages_left = omega (arith, table.pages_left, Descend.pages_left cr3 gpa m tree fits two_left)

  module _ (hpa : ℕ) (w x : Bool) (physical : hpa < 2 ^ 63) where
    mapped-eq :
        map_page_4k cr3 gpa hpa w x m
        ≡ put (word r2.0 (gpa / 2 ^ 12 % 512)) (small_entry hpa w x) r2.1
    unfolding map_page_4k
    mapped-eq = simp index_lem refl

    -- `map_page_4k` puts the leaf at the addresses of its page, and leaves all others.
    pub map_page_4k-Updates :
        Updates cr3 m
          (same_page gpa)
          (Leaf.small (small_entry hpa w x))
          (map_page_4k cr3 gpa hpa w x m)
    map_page_4k-Updates =
        let e = small_entry hpa w x in
        let there : (e % 2 == 0) ≡ false = ground (arith, entry_present hpa w x physical) in
        let leaf : leaf_of e ≡ Leaf.small e = rw there refl in
        rw mapped-eq (record {
          tree = after-IsTree cr3 gpa e pd r2.0 r2.1 reached_table;
          leaves = λ y y_fits.
              leaves cr3 gpa e pd r2.0 r2.1 reached_table y y_fits
              ∙ ap₂ (λ l l'. if same_page gpa y then l else l') leaf (same_leaves y);
          pages_left = omega (arith, pages_left);
        })
