-- ===== src/Mm/Tables/Eptp.antt =====
-- The value that `eptp_from_pml4_with_opts` of src/mm/ept.rs composes.
use zerovisor.Base.{
  ℕ, ◌+◌, ◌-◌, ◌*◌, ◌/◌, ◌%◌, ◌^◌, ◌≡◌, ap, ◌∙◌, arith, bit_and, bit_or, ◌<<◌, Bool-cases, inl, inr,
  if◌then◌else◌,
}
use zerovisor.Bits.Fields.{bit_and_mask, bit_or_shifted, bit_and_shifted, bit_or_low}
use zerovisor.Mm.Tables.{EptOptions, eptp_from_pml4, eptp_from_pml4_with_opts}
use zerovisor.Mm.Tables.Identity.{frame}

frame_masked : (a : ℕ) → bit_and a 0x000FFFFFFFFFF000 ≡ frame a
frame_masked a =
    bit_and_shifted 12 a (2 ^ 40 - 1) ∙ ap (λ t. t * 2 ^ 12) (bit_and_mask 40 (a / 2 ^ 12))

low_fields : (q : ℕ) → bit_or (bit_or (q * 2 ^ 12) 6) (3 << 3) ≡ q * 2 ^ 12 + 30
low_fields q =
    ap (λ t. bit_or t (3 << 3)) (bit_or_shifted 12 q 6 (omega arith))
    ∙ bit_or_low 12 q 6 24 (omega arith) (omega arith)

with_flag : (q : ℕ) → bit_or (q * 2 ^ 12 + 30) (1 << 6) ≡ q * 2 ^ 12 + 94
with_flag q = bit_or_low 12 q 30 64 (omega arith) (omega arith)

-- The value has the page of the top table, write-back memory (6) in the bits 0 to 2, a walk of four
-- levels (3) in the bits 3 to 5, and in bit 6 whether accessed and dirty flags are enabled.
pub eptp_from_pml4-fields :
    (pml4_phys : ℕ) (opts : EptOptions)
    → let e = eptp_from_pml4_with_opts pml4_phys opts in
      (frame e ≡ frame pml4_phys)
      × (e % 8 ≡ 6)
      × (e / 8 % 8 ≡ 3)
      × (e / 64 % 2 ≡ (if opts.enable_ad then 1 else 0))
unfolding eptp_from_pml4_with_opts eptp_from_pml4
eptp_from_pml4-fields pml4_phys opts =
    let q = pml4_phys / 2 ^ 12 % 2 ^ 40 in
    let plain : bit_or (bit_or (bit_and pml4_phys 0x000FFFFFFFFFF000) 6) (3 << 3)
        ≡ q * 2 ^ 12 + 30 =
      ap (λ t. bit_or (bit_or t 6) (3 << 3)) (frame_masked pml4_phys) ∙ low_fields q in
    elim (Bool-cases opts.enable_ad) [
      | inl t ↦ rw (t, plain, with_flag q) (omega arith)
      | inr t ↦ rw (t, plain) (omega arith)
    ]
