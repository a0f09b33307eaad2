-- ===== src/Iommu/Vtd/Trees/Others.antt =====
-- A change of one slot of a lower table leaves the leaves of the addresses that it does not cover.
use zerovisor.Base.{ℕ, ◌+◌, ◌*◌, ◌/◌, ◌%◌, ◌^◌, ◌≤◌, ◌<◌, ◌≡◌, ◌≢◌, ap, ◌⊎◌, inl, inr, arith}
use zerovisor.Mm.Memory.{Words, word}
use zerovisor.Iommu.Vtd.Tables.Leaf.{frame, leaf1, leaf2, leaf3, leaf4}
use zerovisor.Iommu.Vtd.Trees.{slot-cases}

module _ (level pre : ℕ → ℕ) (mem mem' : Words) (t idx : ℕ)
    (linked : (s i : ℕ)
      → i < 512
      → 2 ≤ level s
      → mem (word s i) % 2 ≡ 1
      → (level s ≡ 2 → mem (word s i) / 2 ^ 7 % 2 ≡ 0)
      → (level (frame (mem (word s i))) + 1 ≡ level s)
        × (pre (frame (mem (word s i))) ≡ pre s * 512 + i))
    (other : (s i : ℕ)
      → 1 ≤ level s
      → i < 512
      → (s ≢ t) ⊎ (i ≢ idx)
      → mem' (word s i) ≡ mem (word s i))
    (y : ℕ) (low : level t ≤ 2) (miss1 : level t ≡ 1 → y / 2 ^ 12 ≢ pre t * 512 + idx)
    (miss2 : level t ≡ 2 → y / 2 ^ 21 ≢ pre t * 512 + idx) where
  leaf1-other : (s : ℕ) → level s ≡ 1 → pre s ≡ y / 2 ^ 21 → leaf1 mem' s y ≡ leaf1 mem s y
  unfolding leaf1
  leaf1-other s h q =
      let i = y / 2 ^ 12 % 512 in
      elim (slot-cases s i t idx) [
        | inl (a, b) ↦ absurd (miss1 (omega (arith, ap level a)) (omega (arith, ap pre a, b)))
        | inr n ↦ ground (arith, other s i (omega arith) (omega arith) n)
      ]

  leaf2-other : (s : ℕ) → level s ≡ 2 → pre s ≡ y / 2 ^ 30 → leaf2 mem' s y ≡ leaf2 mem s y
  unfolding leaf2
  leaf2-other s h q =
      let i = y / 2 ^ 21 % 512 in
      elim (slot-cases s i t idx) [
        | inl (a, b) ↦ absurd (miss2 (omega (arith, ap level a)) (omega (arith, ap pre a, b)))
        | inr n ↦
            let eq = other s i (omega arith) (omega arith) n in
            let next = linked s i (omega arith) (omega arith) in
            ground (arith, eq, next, leaf1-other (frame (mem (word s i))))
      ]

  leaf3-other : (s : ℕ) → level s ≡ 3 → pre s ≡ y / 2 ^ 39 → leaf3 mem' s y ≡ leaf3 mem s y
  unfolding leaf3
  leaf3-other s h q =
      let i = y / 2 ^ 30 % 512 in
      let apart : s ≢ t = λ e. absurd (omega (arith, ap level e)) in
      let eq = other s i (omega arith) (omega arith) (inl apart) in
      let next = linked s i (omega arith) (omega arith) in
      ground (arith, eq, next, leaf2-other (frame (mem (word s i))))

  pub leaf4-other : (s : ℕ) → level s ≡ 4 → pre s ≡ 0 → y < 2 ^ 48 → leaf4 mem' s y ≡ leaf4 mem s y
  unfolding leaf4
  leaf4-other s h q fits =
      let i = y / 2 ^ 39 % 512 in
      let apart : s ≢ t = λ e. absurd (omega (arith, ap level e)) in
      let eq = other s i (omega arith) (omega arith) (inl apart) in
      let next = linked s i (omega arith) (omega arith) in
      ground (arith, eq, next, leaf3-other (frame (mem (word s i))))
