-- ===== src/Iommu/Vtd/Tables/Descend.antt =====
-- The first two rounds of `ensure_table_entry` for an address, which `map_range_4k` and
-- `map_range_2m` have in common: they come to the page directory of the address.
use zerovisor.Base.{ℕ, ◌+◌, ◌/◌, ◌%◌, ◌^◌, ◌≤◌, ◌<◌, ◌≡◌, ap, ◌∙◌, arith, length}
use zerovisor.Mm.Memory.{word, Memory}
use zerovisor.Iommu.Vtd.Tables.{ensure_table_entry}
use zerovisor.Iommu.Vtd.Tables.Leaf.{frame, leaf4}
use zerovisor.Iommu.Vtd.Trees.Ensure.{Ensures, ensure_table_entry-Ensures}
use zerovisor.Iommu.Vtd.Tables.Update.{IsTree}
use zerovisor.Iommu.Vtd.Trees.{Tables}

-- The path of an address from the top table to its page directory.
pub record Reached (cr3 gpa : ℕ) (m : Memory) (pd : ℕ) : Type 0 where
  pub level : ℕ → ℕ
  pub pre : ℕ → ℕ
  pub tables : Tables level pre m
  pub root_level : level cr3 ≡ 4
  pub root_pre : pre cr3 ≡ 0
  pub pdpt : ℕ
  pub pdpt_level : level pdpt ≡ 3
  pub pd_level : level pd ≡ 2
  pub pd_pre : pre pd ≡ gpa / 2 ^ 30
  pub top_present : m.words (word cr3 (gpa / 2 ^ 39 % 512)) % 2 ≡ 1
  pub top_leads : frame (m.words (word cr3 (gpa / 2 ^ 39 % 512))) ≡ pdpt
  pub present : m.words (word pdpt (gpa / 2 ^ 30 % 512)) % 2 ≡ 1
  pub leads : frame (m.words (word pdpt (gpa / 2 ^ 30 % 512))) ≡ pd

-- The path from there to the page table.
pub record ReachedTable (cr3 gpa : ℕ) (m : Memory) (pd pt : ℕ) : Type 0 where
  pub above : Reached cr3 gpa m pd
  pub pt_level : above.level pt ≡ 1
  pub pt_pre : above.pre pt ≡ gpa / 2 ^ 21
  pub pd_present : m.words (word pd (gpa / 2 ^ 21 % 512)) % 2 ≡ 1
  pub pd_small : m.words (word pd (gpa / 2 ^ 21 % 512)) / 2 ^ 7 % 2 ≡ 0
  pub pd_leads : frame (m.words (word pd (gpa / 2 ^ 21 % 512))) ≡ pt

module _ (cr3 x : ℕ) (m : Memory) (tree : IsTree cr3 m) (fits : x < 2 ^ 48)
    (enough : 2 ≤ length m.pages) where
  abbrev pub r4 : ℕ × Memory
  r4 = ensure_table_entry cr3 (x / 2 ^ 39 % 512) m

  abbrev pub r3 : ℕ × Memory
  r3 = ensure_table_entry r4.0 (x / 2 ^ 30 % 512) r4.1

  top : Ensures tree.level tree.pre m cr3 (x / 2 ^ 39 % 512) r4.0 r4.1
  top =
      ensure_table_entry-Ensures tree.level tree.pre m cr3 (x / 2 ^ 39 % 512) tree.tables
        (omega (arith, tree.root)) (omega arith) (λ two. absurd (omega (arith, tree.root)))
        (omega arith)

  pdpt_level : top.level' r4.0 ≡ 3
  pdpt_level = omega (arith, top.below, tree.root)

  next : Ensures top.level' top.pre' r4.1 r4.0 (x / 2 ^ 30 % 512) r3.0 r3.1
  next =
      ensure_table_entry-Ensures top.level' top.pre' r4.1 r4.0 (x / 2 ^ 30 % 512) top.tables
        (omega (arith, pdpt_level)) (omega arith) (λ two. absurd (omega (arith, pdpt_level)))
        (omega (arith, top.pages_left))

  pd_level : next.level' r3.0 ≡ 2
  pd_level = omega (arith, next.below, pdpt_level)

  pd_pre : next.pre' r3.0 ≡ x / 2 ^ 30
  pd_pre = omega (arith, next.place, top.place, tree.whole)

  cr3_tags : (top.level' cr3 ≡ 4) × (top.pre' cr3 ≡ 0)
  cr3_tags = omega (arith, top.keeps_tags cr3 (omega (arith, tree.root)), tree.root, tree.whole)

  root_level : next.level' cr3 ≡ 4
  root_level = omega (arith, next.keeps_tags cr3 (omega (arith, cr3_tags)), cr3_tags)

  root_pre : next.pre' cr3 ≡ 0
  root_pre = omega (arith, next.keeps_tags cr3 (omega (arith, cr3_tags)), cr3_tags)

  pdpt_level_next : next.level' r4.0 ≡ 3
  pdpt_level_next = omega (arith, next.keeps_tags r4.0 (omega (arith, pdpt_level)), pdpt_level)

  entry_kept : r3.1.words (word cr3 (x / 2 ^ 39 % 512)) ≡ r4.1.words (word cr3 (x / 2 ^ 39 % 512))
  entry_kept = next.kept cr3 (x / 2 ^ 39 % 512) (omega (arith, cr3_tags)) (omega arith) top.present

  top_present : r3.1.words (word cr3 (x / 2 ^ 39 % 512)) % 2 ≡ 1
  top_present = omega (arith, entry_kept, top.present)

  top_leads : frame (r3.1.words (word cr3 (x / 2 ^ 39 % 512))) ≡ r4.0
  top_leads = ap frame entry_kept ∙ top.leads

  pub reached : Reached cr3 x r3.1 r3.0
  reached = record {
    level = next.level';
    pre = next.pre';
    tables = next.tables;
    root_level = root_level;
    root_pre = root_pre;
    pdpt = r4.0;
    pdpt_level = pdpt_level_next;
    pd_level = pd_level;
    pd_pre = pd_pre;
    top_present = top_present;
    top_leads = top_leads;
    present = next.present;
    leads = next.leads;
  }

  pub same_leaves : (y : ℕ) → leaf4 r3.1.words cr3 y ≡ leaf4 m.words cr3 y
  same_leaves y = next.same cr3 y (cr3_tags.0) ∙ top.same cr3 y tree.root

  pub pages_left : length m.pages ≤ length r3.1.pages + 2
  pages_left = omega (arith, top.pages_left, next.pages_left)
