-- ===== src/Iommu/Vtd/Trees/Same.antt =====
-- Two memories that differ in an entry that was not present, and that now leads to an empty table,
-- have the same leaves.
use zerovisor.Base.{
  ℕ, ◌+◌, ◌/◌, ◌%◌, ◌^◌, ◌≤◌, ◌<◌, ◌≡◌, ◌≢◌, refl, ap, ap₂, ◌∙◌, ◌⊎◌, inl, inr, arith,
}
use zerovisor.Mm.Memory.{Words, word}
use zerovisor.Iommu.Vtd.Tables.Leaf.{frame, absent, leaf1, leaf2, leaf3, leaf4}
use zerovisor.Iommu.Vtd.Trees.{slot-cases}

module _ (level : ℕ → ℕ) (mem mem' : Words) (t idx p : ℕ) (inner : 2 ≤ level t)
    (below : (s i : ℕ)
      → i < 512
      → 2 ≤ level s
      → mem (word s i) % 2 ≡ 1
      → (level s ≡ 2 → mem (word s i) / 2 ^ 7 % 2 ≡ 0)
      → level (frame (mem (word s i))) + 1 ≡ level s)
    (other : (s i : ℕ)
      → 1 ≤ level s
      → i < 512
      → (s ≢ t) ⊎ (i ≢ idx)
      → mem' (word s i) ≡ mem (word s i))
    (missing : mem (word t idx) % 2 ≡ 0) (link : ℕ) (here : mem' (word t idx) ≡ link)
    (present : link % 2 ≡ 1) (is_table : link / 2 ^ 7 % 2 ≡ 0) (leads : frame link ≡ p)
    (empty : (i : ℕ) → i < 512 → mem' (word p i) ≡ 0) where
  leaf1-empty : (x : ℕ) → leaf1 mem' p x ≡ absent
  unfolding leaf1
  leaf1-empty x = rw (empty (x / 2 ^ 12 % 512) (omega arith)) refl

  leaf2-empty : (x : ℕ) → leaf2 mem' p x ≡ absent
  unfolding leaf2
  leaf2-empty x = rw (empty (x / 2 ^ 21 % 512) (omega arith)) refl

  leaf3-empty : (x : ℕ) → leaf3 mem' p x ≡ absent
  unfolding leaf3
  leaf3-empty x = rw (empty (x / 2 ^ 30 % 512) (omega arith)) refl

  leaf1-same : (s x : ℕ) → level s ≡ 1 → leaf1 mem' s x ≡ leaf1 mem s x
  unfolding leaf1
  leaf1-same s x h =
      let apart : s ≢ t = λ e. absurd (omega (arith, ap level e)) in
      ground (arith, other s (x / 2 ^ 12 % 512) (omega arith) (omega arith) (inl apart))

  -- The slot that changed: nothing below it before, and the empty table after.
  changed : (s i : ℕ) → s ≡ t → i ≡ idx → (mem (word s i) % 2 ≡ 0) × (mem' (word s i) ≡ link)
  changed s i a b =
      (ap₂ (λ u j. mem (word u j) % 2) a b ∙ missing, ap₂ (λ u j. mem' (word u j)) a b ∙ here)

  leaf2-same : (s x : ℕ) → level s ≡ 2 → leaf2 mem' s x ≡ leaf2 mem s x
  unfolding leaf2
  leaf2-same s x h =
      let i = x / 2 ^ 21 % 512 in
      let e = mem (word s i) in
      elim (slot-cases s i t idx) [
        | inl (a, b) ↦ ground (arith, changed s i a b, leaf1-empty x)
        | inr n ↦
            let eq = other s i (omega arith) (omega arith) n in
            let next = below s i (omega arith) (omega arith) in
            ground (arith, eq, next, leaf1-same (frame e) x)
      ]

  leaf3-same : (s x : ℕ) → level s ≡ 3 → leaf3 mem' s x ≡ leaf3 mem s x
  unfolding leaf3
  leaf3-same s x h =
      let i = x / 2 ^ 30 % 512 in
      let e = mem (word s i) in
      elim (slot-cases s i t idx) [
        | inl (a, b) ↦ ground (arith, changed s i a b, leaf2-empty x)
        | inr n ↦
            let eq = other s i (omega arith) (omega arith) n in
            let next = below s i (omega arith) (omega arith) in
            ground (arith, eq, next, leaf2-same (frame e) x)
      ]

  pub leaf4-same : (s x : ℕ) → level s ≡ 4 → leaf4 mem' s x ≡ leaf4 mem s x
  unfolding leaf4
  leaf4-same s x h =
      let i = x / 2 ^ 39 % 512 in
      let e = mem (word s i) in
      elim (slot-cases s i t idx) [
        | inl (a, b) ↦ ground (arith, changed s i a b, leaf3-empty x)
        | inr n ↦
            let eq = other s i (omega arith) (omega arith) n in
            let next = below s i (omega arith) (omega arith) in
            ground (arith, eq, next, leaf3-same (frame e) x)
      ]
