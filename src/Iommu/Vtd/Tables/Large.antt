-- ===== src/Iommu/Vtd/Tables/Large.antt =====
-- `map_range_2m` of src/iommu/vtd.rs, one page: it puts a large leaf at the addresses of the page.
use zerovisor.Base.{
  ℕ, ◌+◌, ◌/◌, ◌%◌, ◌^◌, ◌≤◌, ◌<◌, ◌≡◌, ◌≢◌, refl, ap, ◌∙◌, inl, inr, Bool, true, false, ◌==◌,
  if◌then◌else◌, arith, length, Bool-cases,
}
use zerovisor.Mm.Memory.{word, Memory, put}
use zerovisor.Iommu.Vtd.Tables.{map_page_2m}
use zerovisor.Iommu.Vtd.Tables.Leaf.{frame, large_frame, Leaf, leaf4, index_lem}
use zerovisor.Iommu.Vtd.Tables.Update
use zerovisor.Iommu.Vtd.Tables.Update.{IsTree, Updates, leaf2-path, leaf2-large}
use zerovisor.Iommu.Vtd.Tables.Descend
use zerovisor.Iommu.Vtd.Tables.Descend.{Reached}
use zerovisor.Iommu.Vtd.Tables.Entry.{large_entry, large_entry_lem, rw_bit, nx_bit}

abbrev pub same_large : ℕ → ℕ → Bool
same_large x y = y / 2 ^ 21 == x / 2 ^ 21

-- A large leaf written to the page directory of an address.
module _ (cr3 gpa e pd : ℕ) (m : Memory) (r : Reached cr3 gpa m pd) (present : e % 2 ≡ 1)
    (large : e / 2 ^ 7 % 2 ≡ 1) where
  abbrev idx : ℕ
  idx = gpa / 2 ^ 21 % 512

  abbrev after : Memory
  after = put (word pd idx) e m

  inner : (1 ≤ r.level pd) × (r.level pd ≤ 2)
  inner = omega (arith, r.pd_level)

  other : (s i : ℕ) → 3 ≤ r.level s → i < 512 → after.words (word s i) ≡ m.words (word s i)
  other s i h k =
      let apart : s ≢ pd = λ q. absurd (omega (arith, ap r.level q, r.pd_level)) in
      Update.other r.level r.pre m pd idx e r.tables inner.0 inner.1 (omega arith) s i (omega arith)
        k (inl apart)

  after-IsTree : IsTree cr3 after
  after-IsTree = record {
    level = r.level;
    pre = r.pre;
    tables =
        Update.written-Tables r.level r.pre m pd idx e r.tables inner.0 inner.1 (omega arith)
          (λ _. large);
    root = r.root_level;
    whole = r.root_pre;
  }

  hit_leaf : (y : ℕ) → y / 2 ^ 21 ≡ gpa / 2 ^ 21 → leaf4 after.words cr3 y ≡ Leaf.large e
  hit_leaf y page =
      let a = other cr3 (gpa / 2 ^ 39 % 512) (omega (arith, r.root_level)) (omega arith) in
      let b = other r.pdpt (gpa / 2 ^ 30 % 512) (omega (arith, r.pdpt_level)) (omega arith) in
      leaf2-path after.words cr3 r.pdpt pd (gpa / 2 ^ 39 % 512) (gpa / 2 ^ 30 % 512) y (omega arith)
        (omega arith) (omega (arith, a, r.top_present)) (ap frame a ∙ r.top_leads)
        (omega (arith, b, r.present)) (ap frame b ∙ r.leads)
      ∙ leaf2-large after.words pd idx y e (omega arith)
          (Update.here r.level r.pre m pd idx e r.tables inner.0 inner.1 (omega arith)) present
          large

  leaves :
      (y : ℕ)
      → y < 2 ^ 48
      → leaf4 after.words cr3 y ≡ (if same_large gpa y then Leaf.large e else leaf4 m.words cr3 y)
  leaves y fits = elim (Bool-cases (same_large gpa y)) [
    | inl q ↦ rw q (hit_leaf y (ground arith))
    | inr q ↦ rw q (
        Update.leaf4-written r.level r.pre m pd idx e r.tables inner.0 inner.1 (omega arith) cr3 y
          r.root_level r.root_pre fits (λ one. absurd (omega (arith, r.pd_level, one)))
          (λ _ u. absurd (ground (arith, r.pd_pre, u))))
  ]

entry_bits :
    (hpa : ℕ) (w x : Bool)
    → hpa < 2 ^ 63
    → (large_entry hpa w x % 2 ≡ 1) × (large_entry hpa w x / 2 ^ 7 % 2 ≡ 1)
entry_bits hpa w x h = bits w x (large_entry_lem hpa w x h)
  where
    bits :
        (w x : Bool)
        → large_entry hpa w x ≡ large_frame hpa + (0x81 + rw_bit w + nx_bit x)
        → (large_entry hpa w x % 2 ≡ 1) × (large_entry hpa w x / 2 ^ 7 % 2 ≡ 1)
    bits true true e = omega arith
    bits true false e = omega arith
    bits false true e = omega arith
    bits false false e = omega arith

module _ (cr3 gpa hpa : ℕ) (w x : Bool) (m : Memory) (tree : IsTree cr3 m) (fits : gpa < 2 ^ 48)
    (enough : 2 ≤ length m.pages) (physical : hpa < 2 ^ 63) where
  abbrev pd : ℕ
  pd = (Descend.r3 cr3 gpa m tree fits enough).0

  abbrev before : Memory
  before = (Descend.r3 cr3 gpa m tree fits enough).1

  mapped-eq :
      map_page_2m cr3 gpa hpa w x m
      ≡ put (word pd (gpa / 2 ^ 21 % 512)) (large_entry hpa w x) before
  unfolding map_page_2m
  mapped-eq = simp index_lem refl

  -- `map_page_2m` puts the large leaf at the addresses of its page, and leaves all others.
  pub map_page_2m-Updates :
      Updates cr3 m
        (same_large gpa)
        (Leaf.large (large_entry hpa w x))
        (map_page_2m cr3 gpa hpa w x m)
  map_page_2m-Updates =
      let path = Descend.reached cr3 gpa m tree fits enough in
      let bits = entry_bits hpa w x physical in
      rw mapped-eq (record {
        tree = after-IsTree cr3 gpa (large_entry hpa w x) pd before path bits.0 bits.1;
        leaves = λ y y_fits.
            leaves cr3 gpa (large_entry hpa w x) pd before path bits.0 bits.1 y y_fits
            ∙ ap (λ l. if same_large gpa y then Leaf.large (large_entry hpa w x) else l)
                (Descend.same_leaves cr3 gpa m tree fits enough y);
        pages_left = omega (arith, Descend.pages_left cr3 gpa m tree fits enough);
      })
