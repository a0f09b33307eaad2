-- ===== src/Iommu/Vtd/Trees/Grown.antt =====
-- A fresh page that is linked below a table changes no translation.
use native.Mathlib.Decide.{ℕ_discrete}
use zerovisor.Base.{
  ℕ, ◌+◌, ◌-◌, ◌*◌, ◌/◌, ◌%◌, ◌^◌, ◌≤◌, ◌<◌, ◌≡◌, ◌≢◌, refl, ap, ap₂, ◌∙◌, subst, ◌⊎◌, inl, inr,
  true, false, List, ◌∷◌, ◌==◌, arith,
}
use zerovisor.Mm.Memory.{word, store, zeroed, Memory}
use zerovisor.Iommu.Vtd.Tables.Leaf.{frame, leaf4}
use zerovisor.Iommu.Vtd.Trees.Same.{leaf4-same}
use zerovisor.Iommu.Vtd.Trees.{
  tagged, Apart, Fresh, Tables, Fresh-tagged, slot-cases, word-ne, word-outside,
}

module _ (level pre : ℕ → ℕ) (m : Memory) (t idx p : ℕ) (rest : List ℕ)
    (tables : Tables level pre m) (inner : 2 ≤ level t) (idx_fits : idx < 512)
    (given : m.pages ≡ p ∷ rest) (missing : m.words (word t idx) % 2 ≡ 0) where
  abbrev pub grown : Memory
  grown = record { words = store (word t idx) (p + 3) (zeroed p m.words); pages = rest }

  page : (p % 4096 ≡ 0) × (p < 2 ^ 64) × (level p ≡ 0) × Apart p rest × Fresh level rest
  page = subst (Fresh level) given tables.fresh

  pub is_frame : frame (p + 3) ≡ p
  is_frame = omega (arith, page)

  pub other :
      (s i : ℕ)
      → 1 ≤ level s
      → i < 512
      → (s ≢ t) ⊎ (i ≢ idx)
      → grown.words (word s i) ≡ m.words (word s i)
  other s i h k n =
      let s_aligned = tables.aligned s h in
      let apart = word-ne s i t idx s_aligned (tables.aligned t (omega arith)) k idx_fits n in
      let s_old : s ≢ p = λ e. absurd (omega (arith, ap level e, page)) in
      let far = word-outside s i p s_aligned page.0 k s_old in ground (arith, apart, far)

  pub here : grown.words (word t idx) ≡ p + 3
  here = ground arith

  pub kept :
      (s i : ℕ)
      → 1 ≤ level s
      → i < 512
      → m.words (word s i) % 2 ≡ 1
      → grown.words (word s i) ≡ m.words (word s i)
  kept s i h k present = elim (slot-cases s i t idx) [
    | inl (a, b) ↦ absurd (omega (arith, ap₂ (λ u j. m.words (word u j)) a b))
    | inr n ↦ other s i h k n
  ]

  pub empty : (i : ℕ) → i < 512 → grown.words (word p i) ≡ 0
  empty i h =
      let t_old : t ≢ p = λ e. absurd (omega (arith, ap level e, page)) in
      let far = word-outside t idx p (tables.aligned t (omega arith)) page.0 idx_fits t_old in
      ground (arith, far)

  pub same : (s x : ℕ) → level s ≡ 4 → leaf4 grown.words s x ≡ leaf4 m.words s x
  same =
      leaf4-same level m.words grown.words t idx p inner
        (λ s i h k q r. (tables.linked s i h k q r).0) other missing (p + 3) here
        (omega (arith, page)) (omega (arith, page)) is_frame empty

  abbrev pub level' : ℕ → ℕ
  level' = tagged level p (level t - 1)

  abbrev pub pre' : ℕ → ℕ
  pre' = tagged pre p (pre t * 512 + idx)

  pub keeps_tags : (s : ℕ) → 1 ≤ level s → (level' s ≡ level s) × (pre' s ≡ pre s)
  keeps_tags s h =
      let old : s ≢ p = λ e. absurd (omega (arith, ap level e, page)) in
      let miss : (s == p) ≡ false = ground arith in (rw miss refl, rw miss refl)

  hit : (p == p) ≡ true
  hit = ground arith

  pub of_page : (level' p + 1 ≡ level t) × (pre' p ≡ pre t * 512 + idx)
  of_page = rw hit (omega arith, refl)

  grown-linked :
      (s i : ℕ)
      → i < 512
      → 2 ≤ level' s
      → grown.words (word s i) % 2 ≡ 1
      → (level' s ≡ 2 → grown.words (word s i) / 2 ^ 7 % 2 ≡ 0)
      → (level' (frame (grown.words (word s i))) + 1 ≡ level' s)
        × (pre' (frame (grown.words (word s i))) ≡ pre' s * 512 + i)
  grown-linked s i h k present small = elim (ℕ_discrete s p) [
    | yes q ↦ absurd (omega (arith, ap (λ u. grown.words (word u i)) q, empty i h))
    | no q ↦
        let miss : (s == p) ≡ false = ground arith in
        let l : level' s ≡ level s = rw miss refl in
        let r : pre' s ≡ pre s = rw miss refl in
        elim (slot-cases s i t idx) [
          | inl (a, b) ↦
              let to_page : frame (grown.words (word s i)) ≡ p =
                ap₂ (λ u j. frame (grown.words (word u j))) a b ∙ ap frame here ∙ is_frame in
              (
                omega (arith, ap level' to_page, of_page, l, ap level a),
                omega (arith, ap pre' to_page, of_page, r, ap pre a, b),
              )
          | inr n ↦
              let e = other s i (omega (arith, l)) h n in
              let old =
                tables.linked s i h (omega (arith, l)) (omega (arith, e))
                  (λ two. omega (arith, small (omega (arith, l)), e)) in
              let tags = keeps_tags (frame (m.words (word s i))) (omega (arith, old, l)) in
              (
                omega (arith, ap (λ v. level' (frame v)) e, tags, old, l),
                omega (arith, ap (λ v. pre' (frame v)) e, tags, old, r),
              )
        ]
  ]

  pub grown-Tables : Tables level' pre' grown
  grown-Tables = record {
    linked = grown-linked;
    aligned = λ s h. elim (ℕ_discrete s p) [
      | yes q ↦ rw q page.0
      | no q ↦
          let miss : (s == p) ≡ false = ground arith in
          let l : level' s ≡ level s = rw miss refl in tables.aligned s (omega (arith, l))
    ];
    fresh = Fresh-tagged level p (level t - 1) rest page.3 page.4;
  }
