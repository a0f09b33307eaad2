-- ===== src/Iommu/Vtd/Contexts/Entry.antt =====
-- The words of a context entry of src/iommu/vtd.rs as sums of their fields.
use zerovisor.Base.{
  ℕ, ◌+◌, ◌-◌, ◌*◌, ◌/◌, ◌%◌, ◌^◌, ◌<◌, ◌≡◌, ap, ◌∙◌, not, some, arith, bit_and, bit_or, ◌==◌, ◌<<◌,
  ◌>>◌,
}
use zerovisor.Bits.Fields.{bit_and_mask, bit_and_shifted, bit_or_shifted, bit_or_comm}
use zerovisor.Iommu.Vtd.Contexts.{
  ctx_lo_ptr_mask, ctx_present, entry_lower, entry_upper, entry_matches,
}

-- The part of a pointer that the mask keeps: bits 16 to 59.
abbrev pub kept : ℕ → ℕ
kept p = p / 2 ^ 16 % 2 ^ 44 * 2 ^ 16

pub bit_and-ctx_lo_ptr_mask : (p : ℕ) → bit_and p ctx_lo_ptr_mask ≡ kept p
bit_and-ctx_lo_ptr_mask p =
    bit_and_shifted 16 p (2 ^ 44 - 1) ∙ ap (λ t. t * 2 ^ 16) (bit_and_mask 44 (p / 2 ^ 16))

pub entry_lower_lem : (p : ℕ) → entry_lower (some p) ≡ kept p + 5
entry_lower_lem p =
    ap (bit_or 5) (bit_and-ctx_lo_ptr_mask p)
    ∙ bit_or_comm 5 (kept p)
    ∙ bit_or_shifted 16 (p / 2 ^ 16 % 2 ^ 44) 5 (omega arith)

pub entry_upper_lem : (domid : ℕ) → entry_upper domid ≡ domid % 2 ^ 16 * 2 ^ 8 + 2
entry_upper_lem domid =
    ap (λ t. bit_or 2 (t << 8)) (bit_and_mask 16 domid)
    ∙ bit_or_comm 2 ((domid % 2 ^ 16) << 8)
    ∙ bit_or_shifted 8 (domid % 2 ^ 16) 2 (omega arith)

-- Of a lower word, the pointer and the bit that says that it is present.
pub lower_fields :
    (p : ℕ)
    → (bit_and (entry_lower (some p)) ctx_lo_ptr_mask ≡ kept p)
      × (bit_and (entry_lower (some p)) ctx_present ≡ 1)
lower_fields p = (
  bit_and-ctx_lo_ptr_mask (entry_lower (some p)) ∙ omega (arith, entry_lower_lem p),
  bit_and_mask 1 (entry_lower (some p)) ∙ omega (arith, entry_lower_lem p),
)

-- `verify_state` accepts the entry that is written for a domain just when the mask leaves some bit
-- of the pointer to its top table.
pub entry_matches-entry :
    (p domid : ℕ)
    → domid < 2 ^ 16
    → entry_matches (entry_lower (some p)) (entry_upper domid) domid ≡ not (kept p == 0)
unfolding entry_matches
entry_matches-entry p domid h =
    let lo = entry_lower (some p) in
    let up = entry_upper domid in
    let fields = lower_fields p in
    ground (
      arith,
      fields,
      bit_and_mask 2 (lo >> 2),
      bit_and_mask 3 (up >> 0),
      bit_and_mask 16 (up >> 8),
      entry_lower_lem p,
      entry_upper_lem domid,
    )
