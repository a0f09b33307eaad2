-- ===== src/Iommu/Vtd/Tables/Update.antt =====
-- A write to one slot of a table changes the leaves of the addresses that the slot covers, and no
-- others.
use zerovisor.Base.{
  ℕ, ◌+◌, ◌*◌, ◌/◌, ◌%◌, ◌^◌, ◌≤◌, ◌<◌, ◌≡◌, ◌≢◌, ap, ap₂, ◌∙◌, ◌⊎◌, inl, inr, Bool, if◌then◌else◌,
  arith, length,
}
use zerovisor.Mm.Memory.{Words, word, Memory, put}
use zerovisor.Iommu.Vtd.Tables.Leaf.{frame, Leaf, leaf1, leaf2, leaf3, leaf4}
use zerovisor.Iommu.Vtd.Trees.Others.{leaf4-other}
use zerovisor.Iommu.Vtd.Trees.{Tables, slot-cases, word-ne}

-- The tables of a domain: a top table of level 4 that translates from address 0 on.
pub record IsTree (cr3 : ℕ) (m : Memory) : Type 0 where
  pub level : ℕ → ℕ
  pub pre : ℕ → ℕ
  pub tables : Tables level pre m
  pub root : level cr3 ≡ 4
  pub whole : pre cr3 ≡ 0

-- The leaves of a tree are replaced by a new one at the addresses that satisfy `hit`.
pub record Updates (cr3 : ℕ) (m : Memory) (hit : ℕ → Bool) (new : Leaf) (m' : Memory) : Type 0 where
  pub tree : IsTree cr3 m'
  pub leaves :
      (y : ℕ) → y < 2 ^ 48 → leaf4 m'.words cr3 y ≡ (if hit y then new else leaf4 m.words cr3 y)
  pub pages_left : length m.pages ≤ length m'.pages + 3

module _ (level pre : ℕ → ℕ) (m : Memory) (t idx v : ℕ) (tables : Tables level pre m)
    (inner : 1 ≤ level t) (low : level t ≤ 2) (idx_fits : idx < 512) where
  abbrev pub written : Memory
  written = put (word t idx) v m

  pub other :
      (s i : ℕ)
      → 1 ≤ level s
      → i < 512
      → (s ≢ t) ⊎ (i ≢ idx)
      → written.words (word s i) ≡ m.words (word s i)
  other s i h k n =
      ground (arith, word-ne s i t idx (tables.aligned s h) (tables.aligned t inner) k idx_fits n)

  pub here : written.words (word t idx) ≡ v
  here = ground arith

  -- A table of the last level may hold any entries, one of the level above it large pages.
  pub written-Tables : (level t ≡ 2 → v / 2 ^ 7 % 2 ≡ 1) → Tables level pre written
  written-Tables large = record {
    linked = λ s i h k present small. elim (slot-cases s i t idx) [
      | inl (a, b) ↦
          let two : level t ≡ 2 = omega (arith, ap level a) in
          let v_is : written.words (word s i) ≡ v =
            ap₂ (λ u j. written.words (word u j)) a b ∙ here in
          absurd (omega (arith, large two, small (omega (arith, ap level a)), v_is))
      | inr n ↦
          let e = other s i (omega arith) h n in
          rw e (tables.linked s i h k (omega (arith, e)) (λ two. omega (arith, small two, e)))
    ];
    aligned = tables.aligned;
    fresh = tables.fresh;
  }

  pub leaf4-written :
      (cr3 y : ℕ)
      → level cr3 ≡ 4
      → pre cr3 ≡ 0
      → y < 2 ^ 48
      → (level t ≡ 1 → y / 2 ^ 12 ≢ pre t * 512 + idx)
      → (level t ≡ 2 → y / 2 ^ 21 ≢ pre t * 512 + idx)
      → leaf4 written.words cr3 y ≡ leaf4 m.words cr3 y
  leaf4-written cr3 y h q fits miss1 miss2 =
      leaf4-other level pre m.words written.words t idx tables.linked other y low miss1 miss2 cr3 h
        q fits

-- The leaf of an address by the entries on its path.
pub leaf2-path :
    (mem : Words) (cr3 pdpt pd i4 i3 y : ℕ)
    → y / 2 ^ 39 % 512 ≡ i4
    → y / 2 ^ 30 % 512 ≡ i3
    → mem (word cr3 i4) % 2 ≡ 1
    → frame (mem (word cr3 i4)) ≡ pdpt
    → mem (word pdpt i3) % 2 ≡ 1
    → frame (mem (word pdpt i3)) ≡ pd
    → leaf4 mem cr3 y ≡ leaf2 mem pd y
unfolding leaf4 leaf3
leaf2-path mem cr3 pdpt pd i4 i3 y j k a b c d = ground arith

pub leaf1-path :
    (mem : Words) (pd pt i2 y : ℕ)
    → y / 2 ^ 21 % 512 ≡ i2
    → mem (word pd i2) % 2 ≡ 1
    → mem (word pd i2) / 2 ^ 7 % 2 ≡ 0
    → frame (mem (word pd i2)) ≡ pt
    → leaf2 mem pd y ≡ leaf1 mem pt y
unfolding leaf2
leaf1-path mem pd pt i2 y j a b c = ground arith

pub leaf2-large :
    (mem : Words) (t i2 y e : ℕ)
    → y / 2 ^ 21 % 512 ≡ i2
    → mem (word t i2) ≡ e
    → e % 2 ≡ 1
    → e / 2 ^ 7 % 2 ≡ 1
    → leaf2 mem t y ≡ Leaf.large e
unfolding leaf2
leaf2-large mem t i2 y e j a b c = ground arith

pub leaf1-small :
    (mem : Words) (t i1 y e : ℕ)
    → y / 2 ^ 12 % 512 ≡ i1
    → mem (word t i1) ≡ e
    → e % 2 ≡ 1
    → leaf1 mem t y ≡ Leaf.small e
unfolding leaf1
leaf1-small mem t i1 y e j a b = ground arith
