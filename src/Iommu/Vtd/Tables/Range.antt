-- ===== src/Iommu/Vtd/Tables/Range.antt =====
-- The loop of `map_range_4k`, `map_range_2m` and `unmap_range_4k` of src/iommu/vtd.rs over the pages
-- of a range: its rule, and when it ends.
use zerovisor.Base.{
  ℕ, zero, suc, ◌+◌, ◌-◌, ◌*◌, ◌%◌, ◌^◌, ◌≤◌, ◌<◌, ◌≡◌, ◌≢◌, Bool, ◌==◌, refl, ap, subst, ◌∙◌, true,
  false, none, some, ltb, arith, u64,
}
use native.Mathlib.Nat.{suc-mul}
use zerovisor.Mm.Memory.{Memory}
use zerovisor.Iommu.Vtd.Tables.{range_loop, map_range_4k}

-- One round of the loop.
range_loop-round :
    (fuel size len : ℕ) (body : ℕ → Memory → Memory) (off : ℕ) (m : Memory)
    → off < len
    → range_loop (suc fuel) size len body off m
      ≡ range_loop fuel size len body (u64 (off + size)) (body off m)
unfolding range_loop
range_loop-round fuel size len body off m h =
    let go : ltb off len ≡ true = ground arith in rw go refl

range_loop-end :
    (fuel size len : ℕ) (body : ℕ → Memory → Memory) (off : ℕ) (m : Memory)
    → len ≤ off
    → range_loop (suc fuel) size len body off m ≡ some m
unfolding range_loop
range_loop-end fuel size len body off m h =
    let stop : ltb off len ≡ false = ground arith in rw stop refl

-- An invariant of the rounds holds after all `n` of them, and the loop ends.
module _ (P : ℕ → Memory → Type 0) (n size len : ℕ) (body : ℕ → Memory → Memory)
    (covers : len ≤ n * size) (needed : (k : ℕ) → k < n → k * size < len)
    (fits : (k : ℕ) → k < n → k * size + size < 2 ^ 64)
    (step : (k : ℕ) (m : Memory) → k < n → P k m → P (suc k) (body (k * size) m)) where
  pub range_loop_inv :
      (left fuel k : ℕ) (m : Memory)
      → k + left ≡ n
      → left < fuel
      → P k m
      → (m' : Memory) × (range_loop fuel size len body (k * size) m ≡ some m') × P n m'
  range_loop_inv left zero k m e f p = absurd (omega arith)
  range_loop_inv zero (suc fuel) k m e f p =
      let all : k ≡ n = omega arith in
      let here : len ≤ k * size = rw all covers in
      (m, range_loop-end fuel size len body (k * size) m here, subst (λ j. P j m) all p)
  range_loop_inv (suc left) (suc fuel) k m e f p =
      let more : k < n = omega arith in
      let next : u64 (k * size + size) ≡ suc k * size =
        omega (arith, fits k more, suc-mul k size) in
      let round = range_loop-round fuel size len body (k * size) m (needed k more) in
      let (m', done, q) =
        range_loop_inv left fuel (suc k) (body (k * size) m) (omega arith) (omega arith)
          (step k m more p) in
      (m', round ∙ ap (λ o. range_loop fuel size len body o (body (k * size) m)) next ∙ done, q)

-- A length in the last page below 2^64 is never reached: the offset wraps to 0 before it.
range_loop_endless :
    (fuel len : ℕ) (body : ℕ → Memory → Memory) (off : ℕ) (m : Memory)
    → 2 ^ 64 - 4096 < len
    → off % 4096 ≡ 0
    → off < 2 ^ 64
    → range_loop fuel 4096 len body off m ≡ none
unfolding range_loop
range_loop_endless zero len body off m h a b = refl
range_loop_endless (suc fuel) len body off m h a b =
    range_loop-round fuel 4096 len body off m (omega arith)
    ∙ range_loop_endless fuel len body (u64 (off + 4096)) (body off m) h (omega arith) (omega arith)

-- `map_range_4k` never returns for a length above 2^64 - 4096, whatever the fuel.
pub map_range_4k-endless :
    (fuel cr3 iova pa len : ℕ) (w x : Bool) (m : Memory)
    → cr3 ≢ 0
    → 2 ^ 64 - 4096 < len
    → map_range_4k fuel cr3 iova pa len w x m ≡ none
unfolding map_range_4k
map_range_4k-endless fuel cr3 iova pa len w x m root h =
    let there : (cr3 == 0) ≡ false = ground arith in
    let any : (len == 0) ≡ false = ground arith in
    rw (there, any) (range_loop_endless fuel len _ 0 m h (omega arith) (omega arith))
