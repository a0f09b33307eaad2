-- ===== src/Iommu/Vtd/Tables/Entry.antt =====
-- The entries that the mapping functions of src/iommu/vtd.rs write, as sums of their fields.
use zerovisor.Base.{
  ℕ, ◌+◌, ◌*◌, ◌/◌, ◌%◌, ◌^◌, ◌<◌, ◌≡◌, ap, ◌∙◌, Bool, true, false, arith, bit_and, bit_or,
  if◌then◌else◌,
}
use zerovisor.Bits.Fields.{bit_or_shifted, bit_or_comm, bit_or_low}
use zerovisor.Iommu.Vtd.Tables.{frame_mask, large_mask, pte_p, pte_ps, leaf_flags}
use zerovisor.Iommu.Vtd.Tables.Leaf.{frame, large_frame, bit_and-frame_mask, bit_and-large_mask}

abbrev pub small_entry : (hpa : ℕ) (w x : Bool) → ℕ
small_entry hpa w x = bit_or (bit_and hpa frame_mask) (leaf_flags pte_p w x)

abbrev pub large_entry : (hpa : ℕ) (w x : Bool) → ℕ
large_entry hpa w x = bit_or (bit_and hpa large_mask) (leaf_flags (bit_or pte_p pte_ps) w x)

abbrev pub rw_bit : Bool → ℕ
rw_bit w = if w then 2 else 0

-- The bit that forbids execution, bit 63.
abbrev pub nx_bit : Bool → ℕ
nx_bit x = if x then 0 else 2 ^ 63

-- Flags of low bits, with bit 63 or without it, joined to an address.
join :
    (k q f : ℕ)
    → f < 2 ^ k
    → q * 2 ^ k + f < 2 ^ 63
    → (bit_or (q * 2 ^ k) f ≡ q * 2 ^ k + f)
      × (bit_or (q * 2 ^ k) (2 ^ 63 + f) ≡ q * 2 ^ k + (2 ^ 63 + f))
join k q f h fits =
    let low = bit_or_shifted k q f h in
    (
      low,
      bit_or_comm (q * 2 ^ k) (1 * 2 ^ 63 + f)
          ∙ bit_or_low 63 1 f (q * 2 ^ k) (omega arith) (omega arith)
          ∙ ap (λ u. 1 * 2 ^ 63 + u) (bit_or_comm f (q * 2 ^ k) ∙ low)
          ∙ omega arith,
    )

pub small_entry_lem :
    (hpa : ℕ) (w x : Bool)
    → hpa < 2 ^ 63
    → small_entry hpa w x ≡ frame hpa + (1 + rw_bit w + nx_bit x)
small_entry_lem hpa w x h =
    let q = hpa / 2 ^ 12 % 2 ^ 52 in
    ap (λ u. bit_or u (leaf_flags pte_p w x)) (bit_and-frame_mask hpa) ∙ cases w x
  where
    cases :
        (w x : Bool)
        → bit_or (frame hpa) (leaf_flags pte_p w x) ≡ frame hpa + (1 + rw_bit w + nx_bit x)
    cases true true = (join 12 (hpa / 2 ^ 12 % 2 ^ 52) 3 (omega arith) (omega arith)).0
    cases true false = (join 12 (hpa / 2 ^ 12 % 2 ^ 52) 3 (omega arith) (omega arith)).1
    cases false true = (join 12 (hpa / 2 ^ 12 % 2 ^ 52) 1 (omega arith) (omega arith)).0
    cases false false = (join 12 (hpa / 2 ^ 12 % 2 ^ 52) 1 (omega arith) (omega arith)).1

pub large_entry_lem :
    (hpa : ℕ) (w x : Bool)
    → hpa < 2 ^ 63
    → large_entry hpa w x ≡ large_frame hpa + (0x81 + rw_bit w + nx_bit x)
large_entry_lem hpa w x h =
    ap (λ u. bit_or u (leaf_flags (bit_or pte_p pte_ps) w x)) (bit_and-large_mask hpa) ∙ cases w x
  where
    cases :
        (w x : Bool)
        → bit_or (large_frame hpa) (leaf_flags (bit_or pte_p pte_ps) w x)
          ≡ large_frame hpa + (0x81 + rw_bit w + nx_bit x)
    cases true true = (join 21 (hpa / 2 ^ 21 % 2 ^ 43) 0x83 (omega arith) (omega arith)).0
    cases true false = (join 21 (hpa / 2 ^ 21 % 2 ^ 43) 0x83 (omega arith) (omega arith)).1
    cases false true = (join 21 (hpa / 2 ^ 21 % 2 ^ 43) 0x81 (omega arith) (omega arith)).0
    cases false false = (join 21 (hpa / 2 ^ 21 % 2 ^ 43) 0x81 (omega arith) (omega arith)).1
