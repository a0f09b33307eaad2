-- ===== src/Iommu/Vtd/Tables/Leaf.antt =====
-- The abstract view of the second-level tables: the leaf that translates an address.
use zerovisor.Base.{
  ℕ, ◌+◌, ◌-◌, ◌*◌, ◌/◌, ◌%◌, ◌^◌, ◌≡◌, ◌≢◌, ap, ap₂, ◌∙◌, false, Option, none, some, ◌==◌,
  if◌then◌else◌, bit_and, bit_or, arith,
}
use zerovisor.Bits.Fields.{bit_and_mask, bit_or_shifted, bit_and_shifted}
use zerovisor.Mm.Memory.{Words, word}
use zerovisor.Iommu.Vtd.Tables.{
  index, frame_mask, large_mask, pte_p, pte_ps, answer, walk_second_level,
}

-- The table that an entry points to.
abbrev pub frame : ℕ → ℕ
frame e = e / 2 ^ 12 % 2 ^ 52 * 2 ^ 12

abbrev pub large_frame : ℕ → ℕ
large_frame e = e / 2 ^ 21 % 2 ^ 43 * 2 ^ 21

-- No leaf, one of 2 MiB or one of 4 KiB, with its entry.
pub data Leaf : Type 0 where
  absent : Leaf
  large : ℕ → Leaf
  small : ℕ → Leaf

-- The leaf that a table of each level has for an address.
unfoldable pub leaf1 : Words → ℕ → ℕ → Leaf
leaf1 mem t x = let e = mem (word t (x / 2 ^ 12 % 512)) in if e % 2 == 0 then absent else small e

unfoldable pub leaf2 : Words → ℕ → ℕ → Leaf
leaf2 mem t x =
    let e = mem (word t (x / 2 ^ 21 % 512)) in
    if e % 2 == 0 then absent else if e / 2 ^ 7 % 2 == 0 then leaf1 mem (frame e) x else large e

unfoldable pub leaf3 : Words → ℕ → ℕ → Leaf
leaf3 mem t x =
    let e = mem (word t (x / 2 ^ 30 % 512)) in if e % 2 == 0 then absent else leaf2 mem (frame e) x

unfoldable pub leaf4 : Words → ℕ → ℕ → Leaf
leaf4 mem t x =
    let e = mem (word t (x / 2 ^ 39 % 512)) in if e % 2 == 0 then absent else leaf3 mem (frame e) x

-- The address that a leaf gives.
abbrev pub address : ℕ → Leaf → Option ℕ
address x absent = none
address x (large e) = some (large_frame e + x % 2 ^ 21)
address x (small e) = some (frame e + x % 2 ^ 12)

pub bit_and-frame_mask : (e : ℕ) → bit_and e frame_mask ≡ frame e
bit_and-frame_mask e =
    bit_and_shifted 12 e (2 ^ 52 - 1) ∙ ap (λ t. t * 2 ^ 12) (bit_and_mask 52 (e / 2 ^ 12))

pub bit_and-large_mask : (e : ℕ) → bit_and e large_mask ≡ large_frame e
bit_and-large_mask e =
    bit_and_shifted 21 e (2 ^ 43 - 1) ∙ ap (λ t. t * 2 ^ 21) (bit_and_mask 43 (e / 2 ^ 21))

pub bit_and-pte_p : (e : ℕ) → bit_and e pte_p ≡ e % 2
bit_and-pte_p e = bit_and_mask 1 e

pub bit_and-pte_ps : (e : ℕ) → bit_and e pte_ps ≡ e / 2 ^ 7 % 2 * 2 ^ 7
bit_and-pte_ps e = bit_and_shifted 7 e 1 ∙ ap (λ t. t * 2 ^ 7) (bit_and_mask 1 (e / 2 ^ 7))

pub index_lem : (shift x : ℕ) → index shift x ≡ x / 2 ^ shift % 512
index_lem shift x = bit_and_mask 9 (x / 2 ^ shift)

join_small : (v x : ℕ) → bit_or (bit_and v frame_mask) (bit_and x 0xFFF) ≡ frame v + x % 2 ^ 12
join_small v x =
    ap₂ bit_or (bit_and-frame_mask v) (bit_and_mask 12 x)
    ∙ bit_or_shifted 12 (v / 2 ^ 12 % 2 ^ 52) (x % 2 ^ 12) (omega arith)

join_large :
    (v x : ℕ) → bit_or (bit_and v large_mask) (bit_and x 0x1FFFFF) ≡ large_frame v + x % 2 ^ 21
join_large v x =
    ap₂ bit_or (bit_and-large_mask v) (bit_and_mask 21 x)
    ∙ bit_or_shifted 21 (v / 2 ^ 21 % 2 ^ 43) (x % 2 ^ 21) (omega arith)

-- The walk with the masks of the source as arithmetic.
walked : (v4 v3 v2 v1 iova : ℕ) → Option ℕ
walked v4 v3 v2 v1 iova =
    if v4 % 2 == 0
    then none
    else if v3 % 2 == 0
    then none
    else if v2 % 2 == 0
    then none
    else if v2 / 2 ^ 7 % 2 == 0
    then (if v1 % 2 == 0 then none else some (frame v1 + iova % 2 ^ 12))
    else some (large_frame v2 + iova % 2 ^ 21)

answer-walked : (v4 v3 v2 v1 iova : ℕ) → (answer v4 v3 v2 v1 iova).0 ≡ walked v4 v3 v2 v1 iova
unfolding answer walked
answer-walked v4 v3 v2 v1 iova = ground (
  arith,
  bit_and-pte_p v4,
  bit_and-pte_p v3,
  bit_and-pte_p v2,
  bit_and-pte_p v1,
  bit_and-pte_ps v2,
  join_small v1 iova,
  join_large v2 iova,
)

leaf4-walked :
    (mem : Words) (cr3 x : ℕ)
    → let v4 = mem (word cr3 (x / 2 ^ 39 % 512)) in
      let v3 = mem (word (frame v4) (x / 2 ^ 30 % 512)) in
      let v2 = mem (word (frame v3) (x / 2 ^ 21 % 512)) in
      let v1 = mem (word (frame v2) (x / 2 ^ 12 % 512)) in
      walked v4 v3 v2 v1 x ≡ address x (leaf4 mem cr3 x)
unfolding walked leaf4 leaf3 leaf2 leaf1
leaf4-walked mem cr3 x = ground arith

-- The walk that the source prints finds the address that the leaf gives.
pub walk_second_level-leaf :
    (mem : Words) (cr3 iova : ℕ)
    → cr3 ≢ 0
    → (walk_second_level mem cr3 iova).0 ≡ address iova (leaf4 mem cr3 iova)
unfolding walk_second_level
walk_second_level-leaf mem cr3 iova h =
    let there : (cr3 == 0) ≡ false = ground arith in
    rw there simp (index_lem, bit_and-frame_mask)
      (answer-walked _ _ _ _ iova ∙ leaf4-walked mem cr3 iova)
