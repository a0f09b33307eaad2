-- ===== src/Iommu/Vtd/Trees.antt =====
-- The invariant of the second-level tables: each table has a level and the prefix of the addresses
-- that it translates, an entry points to a table of the next level with the longer prefix, and the
-- pages that the firmware will give are no tables.
pub mod Same
pub mod Others
pub mod Grown
pub mod Ensure
use native.Mathlib.Decide.{ℕ_discrete, dec_lt}
use zerovisor.Base.{
  ℕ, ◌+◌, ◌*◌, ◌/◌, ◌%◌, ◌^◌, ◌≤◌, ◌<◌, ◌≡◌, ◌≢◌, ◌⊎◌, inl, inr, List, [], ◌∷◌, ◌==◌, if◌then◌else◌,
  arith,
}
use zerovisor.Mm.Memory.{word, Memory}
use zerovisor.Iommu.Vtd.Tables.Leaf.{frame}

-- A tag given to one more page.
abbrev pub tagged : (ℕ → ℕ) → ℕ → ℕ → ℕ → ℕ
tagged f p v a = if a == p then v else f a

abbrev pub Apart : ℕ → List ℕ → Type 0
Apart p [] = Unit {0}
Apart p (q ∷ qs) = (p ≢ q) × Apart p qs

-- Pages that may be given out: aligned, different from one another and from the tables.
abbrev pub Fresh : (ℕ → ℕ) → List ℕ → Type 0
Fresh level [] = Unit {0}
Fresh level (p ∷ ps) = (p % 4096 ≡ 0) × (p < 2 ^ 64) × (level p ≡ 0) × Apart p ps × Fresh level ps

pub record Tables (level pre : ℕ → ℕ) (m : Memory) : Type 0 where
  pub linked :
      (t i : ℕ)
      → i < 512
      → 2 ≤ level t
      → m.words (word t i) % 2 ≡ 1
      → (level t ≡ 2 → m.words (word t i) / 2 ^ 7 % 2 ≡ 0)
      → (level (frame (m.words (word t i))) + 1 ≡ level t)
        × (pre (frame (m.words (word t i))) ≡ pre t * 512 + i)
  pub aligned : (t : ℕ) → 1 ≤ level t → t % 4096 ≡ 0
  pub fresh : Fresh level m.pages

pub Fresh-tagged :
    (level : ℕ → ℕ) (p k : ℕ) (ps : List ℕ)
    → Apart p ps
    → Fresh level ps
    → Fresh (tagged level p k) ps
Fresh-tagged level p k [] a f = tt
Fresh-tagged level p k (q ∷ qs) a f =
    (f.0, f.1, ground arith, f.3, Fresh-tagged level p k qs a.1 f.4)

-- Whether two slots are the same.
pub slot-cases : (s i t j : ℕ) → ((s ≡ t) × (i ≡ j)) ⊎ ((s ≢ t) ⊎ (i ≢ j))
slot-cases s i t j = elim (ℕ_discrete s t) [
  | yes p ↦ elim (ℕ_discrete i j) [ yes q ↦ inl (p, q) | no q ↦ inr (inr q) ]
  | no p ↦ inr (inl p)
]

-- Slots that differ have different addresses.
pub word-ne :
    (s i t j : ℕ)
    → s % 4096 ≡ 0
    → t % 4096 ≡ 0
    → i < 512
    → j < 512
    → (s ≢ t) ⊎ (i ≢ j)
    → word s i ≢ word t j
word-ne s i t j a b h k (inl n) e = n (omega arith)
word-ne s i t j a b h k (inr n) e = n (omega arith)

-- A slot lies in the page of its table alone.
pub word-outside :
    (s i p : ℕ)
    → s % 4096 ≡ 0
    → p % 4096 ≡ 0
    → i < 512
    → s ≢ p
    → (word s i < p) ⊎ (p + 4096 ≤ word s i)
word-outside s i p a b h n = elim (dec_lt s p) [
  | yes q ↦ inl (omega arith)
  | no q ↦ inr (let far : p < s = ground arith in omega arith)
]
