-- ===== src/Iommu/Vtd/Trees/Ensure.antt =====
-- `ensure_table_entry` of src/iommu/vtd.rs: it finds or makes the table of the next level, and no
-- translation changes.
use zerovisor.Base.{
  ℕ, ◌+◌, ◌*◌, ◌/◌, ◌%◌, ◌^◌, ◌≤◌, ◌<◌, ◌≡◌, refl, ap, ◌∙◌, subst, inl, inr, true, false, List, [],
  ◌∷◌, ◌==◌, arith, Bool-cases, bit_and, bit_or, length,
}
use zerovisor.Bits.Fields.{bit_or_shifted}
use zerovisor.Mm.Memory.{word, Memory, alloc_zeroed_page}
use zerovisor.Iommu.Vtd.Tables.{ensure_table_entry, frame_mask, pte_p, pte_rw}
use zerovisor.Iommu.Vtd.Tables.Leaf.{frame, leaf4, bit_and-frame_mask, bit_and-pte_p}
use zerovisor.Iommu.Vtd.Trees.{Tables, Fresh}
use zerovisor.Iommu.Vtd.Trees.Grown

-- What `ensure_table_entry` gives for slot `idx` of table `t`: the tags of the tables, with those
-- of the table `t'` that the slot now leads to, and what is as before.
pub record Ensures (level pre : ℕ → ℕ) (m : Memory) (t idx t' : ℕ) (m' : Memory) : Type 0 where
  pub level' : ℕ → ℕ
  pub pre' : ℕ → ℕ
  pub tables : Tables level' pre' m'
  pub below : level' t' + 1 ≡ level t
  pub place : pre' t' ≡ pre t * 512 + idx
  pub present : m'.words (word t idx) % 2 ≡ 1
  pub leads : frame (m'.words (word t idx)) ≡ t'
  pub is_table : level t ≡ 2 → m'.words (word t idx) / 2 ^ 7 % 2 ≡ 0
  pub keeps_tags : (s : ℕ) → 1 ≤ level s → (level' s ≡ level s) × (pre' s ≡ pre s)
  pub kept :
      (s i : ℕ)
      → 1 ≤ level s
      → i < 512
      → m.words (word s i) % 2 ≡ 1
      → m'.words (word s i) ≡ m.words (word s i)
  pub same : (s x : ℕ) → level s ≡ 4 → leaf4 m'.words s x ≡ leaf4 m.words s x
  pub pages_left : length m.pages ≤ length m'.pages + 1

cons-cases : (xs : List ℕ) → 1 ≤ length xs → (x : ℕ) × (ys : List ℕ) × (xs ≡ x ∷ ys)
cons-cases [] h = absurd (omega arith)
cons-cases (x ∷ xs) h = (x, xs, refl)

module _ (level pre : ℕ → ℕ) (m : Memory) (t idx : ℕ) (tables : Tables level pre m)
    (inner : 2 ≤ level t) (idx_fits : idx < 512) where
  -- The table is there.
  found :
      m.words (word t idx) % 2 ≡ 1
      → (level t ≡ 2 → m.words (word t idx) / 2 ^ 7 % 2 ≡ 0)
      → Ensures level pre m t idx (ensure_table_entry t idx m).0 (ensure_table_entry t idx m).1
  unfolding ensure_table_entry
  found present small =
      let there : (bit_and (m.words (word t idx)) pte_p == 0) ≡ false =
        ground (arith, bit_and-pte_p (m.words (word t idx))) in
      let next = tables.linked t idx idx_fits inner present small in
      rw (there, bit_and-frame_mask (m.words (word t idx)))
        (record {
          level' = level;
          pre' = pre;
          tables = tables;
          below = next.0;
          place = next.1;
          present = present;
          leads = refl;
          is_table = small;
          keeps_tags = λ s h. (refl, refl);
          kept = λ s i h k q. refl;
          same = λ s x h. refl;
          pages_left = omega arith;
        })

  module _ (p : ℕ) (rest : List ℕ) (given : m.pages ≡ p ∷ rest)
      (missing : m.words (word t idx) % 2 ≡ 0) where
    abbrev after : Memory
    after = Grown.grown level pre m t idx p rest tables inner idx_fits given missing

    link-eq : bit_or (bit_and p frame_mask) (bit_or pte_p pte_rw) ≡ p + 3
    link-eq =
        let page = subst (Fresh level) given tables.fresh in
        let masked : bit_and p frame_mask ≡ p / 2 ^ 12 * 2 ^ 12 =
          bit_and-frame_mask p ∙ omega (arith, page) in
        ap (λ u. bit_or u 3) masked
        ∙ bit_or_shifted 12 (p / 2 ^ 12) 3 (omega arith)
        ∙ omega (arith, page)

    ensured-eq : ensure_table_entry t idx m ≡ (p, after)
    unfolding ensure_table_entry alloc_zeroed_page
    ensured-eq =
        let there : (bit_and (m.words (word t idx)) pte_p == 0) ≡ true =
          ground (arith, bit_and-pte_p (m.words (word t idx))) in
        let hit : (word t idx == word t idx) ≡ true = ground arith in
        let leads : bit_and (p + 3) frame_mask ≡ p =
          bit_and-frame_mask (p + 3)
          ∙ Grown.is_frame level pre m t idx p rest tables inner idx_fits given missing in
        rw (there, given, link-eq, hit, leads) refl

    made : Ensures level pre m t idx p after
    made =
        let at = Grown.here level pre m t idx p rest tables inner idx_fits given missing in
        let tags = Grown.of_page level pre m t idx p rest tables inner idx_fits given missing in
        let page = subst (Fresh level) given tables.fresh in
        record {
          level' = Grown.level' level pre m t idx p rest tables inner idx_fits given missing;
          pre' = Grown.pre' level pre m t idx p rest tables inner idx_fits given missing;
          tables = Grown.grown-Tables level pre m t idx p rest tables inner idx_fits given missing;
          below = tags.0;
          place = tags.1;
          present = omega (arith, at, page);
          leads =
              ap frame at
              ∙ Grown.is_frame level pre m t idx p rest tables inner idx_fits given missing;
          is_table = λ _. omega (arith, at, page);
          keeps_tags =
              Grown.keeps_tags level pre m t idx p rest tables inner idx_fits given missing;
          kept = Grown.kept level pre m t idx p rest tables inner idx_fits given missing;
          same = Grown.same level pre m t idx p rest tables inner idx_fits given missing;
          pages_left = omega (arith, ap length given);
        }

  -- With a page at hand, and unless the slot is that of a large page, the table of the next level
  -- is there afterwards.
  pub ensure_table_entry-Ensures :
      (level t ≡ 2 → m.words (word t idx) % 2 ≡ 1 → m.words (word t idx) / 2 ^ 7 % 2 ≡ 0)
      → 1 ≤ length m.pages
      → Ensures level pre m t idx (ensure_table_entry t idx m).0 (ensure_table_entry t idx m).1
  ensure_table_entry-Ensures small enough = elim (Bool-cases (m.words (word t idx) % 2 == 0)) [
    | inl out ↦
        let (p, rest, given) = cons-cases m.pages enough in
        let missing : m.words (word t idx) % 2 ≡ 0 = ground arith in
        rw (ensured-eq p rest given missing) (made p rest given missing)
    | inr there ↦ found (ground arith) (λ two. small two (ground arith))
  ]
