-- ===== src/Firmware/Acpi/Find.antt =====
-- What the loops of src/firmware/acpi/mod.rs find: the structures of a table that is laid out well, and
-- the tables of the XSDT up to the first that is not valid.
use zerovisor.Base.{
  ℕ, zero, suc, ◌+◌, ◌*◌, ◌≤◌, ◌≡◌, refl, ap, ◌∙◌, sym, inl, inr, List, [], ◌∷◌, arith, All,
  All-map, length, if◌then◌else◌, false, Bool, ◌==◌, Bool-cases, map,
}
use zerovisor.Firmware.Acpi.{
  Bytes, Entry, sdt_size, sdt_length, le16, le64, validate_sdt, iter_xsdt, count_cpus,
  processor_ids, madt_count_logical_cpus_from, madt_for_each_processor_id, madt_entries,
}
use zerovisor.Firmware.Acpi.Dmar.{
  is_drhd, drhd_at, drhds_of, dmar_entries, dmar_for_each_drhd_from, scope_entries,
}
use zerovisor.Firmware.Acpi.Walk.{Inside, LaidOut, walk-Inside, walk-LaidOut}

-- The entries that satisfy a test.
abbrev pub keep : (Entry → Bool) → List Entry → List Entry
keep p [] = []
keep p (e ∷ es) = if p e then e ∷ keep p es else keep p es

drhds_of-map :
    (mem : Bytes) (hdr : ℕ) (es : List Entry)
    → drhds_of mem hdr es ≡ map (drhd_at mem hdr) (keep is_drhd es)
unfolding drhds_of
drhds_of-map mem hdr [] = refl
drhds_of-map mem hdr (e ∷ es) = elim (Bool-cases (is_drhd e)) [
  | inl t ↦ rw t (ap (λ l. drhd_at mem hdr e ∷ l) (drhds_of-map mem hdr es))
  | inr t ↦ rw t (drhds_of-map mem hdr es)
]

-- In a DMAR table whose structures lie one after another from byte 48 to its end, the loop over the
-- remapping units calls its closure for just the units among them, in order.
pub dmar_for_each_drhd_from-LaidOut :
    (mem : Bytes) (hdr : ℕ) (es : List Entry)
    → LaidOut 4 (sdt_length mem hdr) (λ o. le16 mem (hdr + o)) (λ o. le16 mem (hdr + o + 2)) 48 es
    → dmar_for_each_drhd_from mem hdr ≡ map (drhd_at mem hdr) (keep is_drhd es)
unfolding dmar_for_each_drhd_from dmar_entries
dmar_for_each_drhd_from-LaidOut mem hdr es laid =
    let total = sdt_length mem hdr in
    ap (drhds_of mem hdr) (
      walk-LaidOut 4 total (λ o. le16 mem (hdr + o)) (λ o. le16 mem (hdr + o + 2)) total 48 es
        (omega arith) (omega arith) laid)
    ∙ drhds_of-map mem hdr es

-- A structure of the DMAR table, with the scopes of a unit, inside the table.
abbrev pub ReadsInside : Bytes → ℕ → Entry → Type 0
ReadsInside mem hdr e =
    Inside 4 (sdt_length mem hdr) (λ o. le16 mem (hdr + o)) (λ o. le16 mem (hdr + o + 2)) 48 e
    × All (λ s. (e.off + 16 ≤ s.off) × (6 ≤ s.len) × (s.off + s.len ≤ sdt_length mem hdr))
        (scope_entries mem hdr e)

-- Whatever the bytes of a DMAR table are, each structure and each device scope that the loops visit
-- has its head and its whole length inside the table.
pub dmar_entries-ReadsInside :
    (mem : Bytes) (hdr : ℕ) → All (ReadsInside mem hdr) (dmar_entries mem hdr)
unfolding dmar_entries scope_entries
dmar_entries-ReadsInside mem hdr =
    let total = sdt_length mem hdr in
    All-map (Inside 4 total (λ o. le16 mem (hdr + o)) (λ o. le16 mem (hdr + o + 2)) 48)
      (ReadsInside mem hdr) (dmar_entries mem hdr)
      (λ e h. (
        h,
        All-map
            (Inside 6 (e.off + e.len) (λ o. mem (hdr + o)) (λ o. le16 mem (hdr + o + 1))
              (e.off + 16))
            (λ s. (e.off + 16 ≤ s.off) × (6 ≤ s.len) × (s.off + s.len ≤ total))
            (scope_entries mem hdr e) (λ s i. (i.0, i.1, omega (arith, i, h)))
            (walk-Inside 6 (e.off + e.len) (λ o. mem (hdr + o)) (λ o. le16 mem (hdr + o + 1)) e.len
              (e.off + 16)),
      ))
      (walk-Inside 4 total (λ o. le16 mem (hdr + o)) (λ o. le16 mem (hdr + o + 2)) total 48)

processor_ids-count :
    (mem : Bytes) (hdr : ℕ) (es : List Entry) → length (processor_ids mem hdr es) ≡ count_cpus es
unfolding processor_ids count_cpus
processor_ids-count mem hdr [] = refl
processor_ids-count mem hdr (e ∷ es) = ground (arith, processor_ids-count mem hdr es)

-- The number of processors that the MADT is said to have is that of the identifiers that it lists.
pub madt_for_each_processor_id-count :
    (mem : Bytes) (hdr : ℕ)
    → length (madt_for_each_processor_id mem hdr) ≡ madt_count_logical_cpus_from mem hdr
unfolding madt_for_each_processor_id madt_count_logical_cpus_from
madt_for_each_processor_id-count mem hdr = processor_ids-count mem hdr (madt_entries mem hdr)

-- The address in an entry of the XSDT.
abbrev pub xsdt_entry : Bytes → (xsdt idx : ℕ) → ℕ
xsdt_entry mem xsdt idx = le64 mem (xsdt + sdt_size + 8 * idx)

iter_xsdt-round :
    (n : ℕ) (mem : Bytes) (xsdt idx : ℕ)
    → iter_xsdt (suc n) mem xsdt idx ≡ (
        if xsdt_entry mem xsdt idx == 0
        then []
        else if validate_sdt mem (xsdt_entry mem xsdt idx)
        then xsdt_entry mem xsdt idx ∷ iter_xsdt n mem xsdt (suc idx)
        else [])
unfolding iter_xsdt
iter_xsdt-round n mem xsdt idx = refl

-- A table that is not valid ends the iteration.
iter_xsdt-invalid :
    (n : ℕ) (mem : Bytes) (xsdt idx : ℕ)
    → validate_sdt mem (xsdt_entry mem xsdt idx) ≡ false
    → iter_xsdt n mem xsdt idx ≡ []
unfolding iter_xsdt
iter_xsdt-invalid zero mem xsdt idx bad = refl
iter_xsdt-invalid (suc n) mem xsdt idx bad = elim (Bool-cases (xsdt_entry mem xsdt idx == 0)) [
  | inl e ↦ iter_xsdt-round n mem xsdt idx ∙ rw e refl
  | inr e ↦ iter_xsdt-round n mem xsdt idx ∙ rw (e, bad) refl
]

-- A table that is not valid hides all that come after it in the XSDT.
pub iter_xsdt-stops :
    (k j idx : ℕ) (mem : Bytes) (xsdt : ℕ)
    → validate_sdt mem (xsdt_entry mem xsdt (idx + k)) ≡ false
    → iter_xsdt (k + suc j) mem xsdt idx ≡ iter_xsdt k mem xsdt idx
iter_xsdt-stops zero j idx mem xsdt bad =
    let here : validate_sdt mem (xsdt_entry mem xsdt idx) ≡ false =
      ap (λ i. validate_sdt mem (xsdt_entry mem xsdt i)) (omega arith) ∙ bad in
    iter_xsdt-invalid (0 + suc j) mem xsdt idx here ∙ sym (iter_xsdt-invalid 0 mem xsdt idx here)
iter_xsdt-stops (suc k) j idx mem xsdt bad =
    let more : suc k + suc j ≡ suc (k + suc j) = omega arith in
    let later : validate_sdt mem (xsdt_entry mem xsdt (suc idx + k)) ≡ false =
      ap (λ i. validate_sdt mem (xsdt_entry mem xsdt i)) (omega arith) ∙ bad in
    ap (λ n. iter_xsdt n mem xsdt idx) more
    ∙ iter_xsdt-round (k + suc j) mem xsdt idx
    ∙ rw (iter_xsdt-stops k j (suc idx) mem xsdt later) (sym (iter_xsdt-round k mem xsdt idx))
