-- ===== src/Firmware/Acpi/Dmar.antt =====
-- src/firmware/acpi/mod.rs: what the tables DMAR, IVRS and MCFG say of the units that remap and of the
-- configuration space.
use zerovisor.Base.{
  ℕ, zero, suc, ◌+◌, ◌-◌, ◌/◌, Bool, not, ◌&&◌, List, [], ◌∷◌, ◌++◌, ltb, leb, ◌==◌, if◌then◌else◌,
}
use zerovisor.Firmware.Acpi.{Bytes, le16, le64, or_bytes, sdt_length, Entry, walk}

-- The loops over the structures of the DMAR table, from 48 on.
unfoldable pub dmar_entries : Bytes → ℕ → List Entry
unfolding walk
dmar_entries mem hdr =
    let total = sdt_length mem hdr in
    walk total 4 total (λ o. le16 mem (hdr + o)) (λ o. le16 mem (hdr + o + 2)) 48

-- A remapping unit: segment and registers.
pub record Drhd : Type 0 where
  pub seg : ℕ
  pub reg_base : ℕ

abbrev pub is_drhd : Entry → Bool
is_drhd e = e.typ == 0 && leb 16 e.len

abbrev pub drhd_at : Bytes → ℕ → Entry → Drhd
drhd_at mem hdr e = record {
  seg = le16 mem (hdr + e.off + 6);
  reg_base = le64 mem (hdr + e.off + 8);
}

unfoldable pub drhds_of : Bytes → ℕ → List Entry → List Drhd
unfolding or_bytes
drhds_of mem hdr [] = []
drhds_of mem hdr (e ∷ es) =
    let rest = drhds_of mem hdr es in if is_drhd e then drhd_at mem hdr e ∷ rest else rest

-- The calls of `dmar_for_each_drhd_from`.
unfoldable pub dmar_for_each_drhd_from : Bytes → ℕ → List Drhd
unfolding drhds_of dmar_entries
dmar_for_each_drhd_from mem hdr = drhds_of mem hdr (dmar_entries mem hdr)

-- A device scope with the registers of the unit that owns it.
pub record Scope : Type 0 where
  pub seg : ℕ
  pub reg : ℕ
  pub bus : ℕ
  pub dev : ℕ
  pub func : ℕ

-- The loop over `n` pairs of a path, from the one at `p` on.
unfoldable pub path_scopes : ℕ → Bytes → (u : Drhd) → (bus p : ℕ) → List Scope
path_scopes zero mem u bus p = []
path_scopes (suc n) mem u bus p =
    record { seg = u.seg; reg = u.reg_base; bus = bus; dev = mem p; func = mem (p + 1) }
    ∷ path_scopes n mem u bus (p + 2)

-- The structures of the scopes of a unit: 16 bytes after its beginning.
unfoldable pub scope_entries : Bytes → ℕ → Entry → List Entry
unfolding walk
scope_entries mem hdr e =
    walk e.len 6 (e.off + e.len) (λ o. mem (hdr + o)) (λ o. le16 mem (hdr + o + 1)) (e.off + 16)

unfoldable pub scopes_of : Bytes → ℕ → Drhd → List Entry → List Scope
unfolding path_scopes
scopes_of mem hdr u [] = []
scopes_of mem hdr u (s ∷ ss) =
    path_scopes ((s.len - 6) / 2) mem u (mem (hdr + s.off + 4)) (hdr + s.off + 6)
    ++ scopes_of mem hdr u ss

unfoldable pub units_scopes : Bytes → ℕ → List Entry → List Scope
unfolding scopes_of scope_entries or_bytes
units_scopes mem hdr [] = []
units_scopes mem hdr (e ∷ es) =
    let rest = units_scopes mem hdr es in
    if is_drhd e && ltb 16 e.len
    then scopes_of mem hdr (drhd_at mem hdr e) (scope_entries mem hdr e) ++ rest
    else rest

-- The calls of `dmar_for_each_device_scope_from`.
unfoldable pub dmar_for_each_device_scope_from : Bytes → ℕ → List Scope
unfolding units_scopes dmar_entries
dmar_for_each_device_scope_from mem hdr = units_scopes mem hdr (dmar_entries mem hdr)

-- The loop over the IVRS table, from 40 on.
unfoldable pub ivrs_entries : Bytes → ℕ → List Entry
unfolding walk
ivrs_entries mem hdr =
    let total = sdt_length mem hdr in
    walk total 4 total (λ o. mem (hdr + o)) (λ o. le16 mem (hdr + o + 2)) 40

-- The base at 8, or the one at 24 where the first is 0.
abbrev pub ivhd_base : Bytes → ℕ → Entry → ℕ
ivhd_base mem p e =
    let first = if leb 16 e.len then le64 mem (p + 8) else 0 in
    if first == 0 && leb 32 e.len then or_bytes 8 mem (p + 24) 0 first else first

unfoldable pub ivhds_of : Bytes → ℕ → List Entry → List Drhd
unfolding or_bytes
ivhds_of mem hdr [] = []
ivhds_of mem hdr (e ∷ es) =
    let p = hdr + e.off in
    let base = ivhd_base mem p e in
    let rest = ivhds_of mem hdr es in
    if leb 0x10 e.typ && not (base == 0)
    then record { seg = le16 mem (p + 4); reg_base = base } ∷ rest
    else rest

-- The calls of `ivrs_for_each_ivhd_from`.
unfoldable pub ivrs_for_each_ivhd_from : Bytes → ℕ → List Drhd
unfolding ivhds_of ivrs_entries
ivrs_for_each_ivhd_from mem hdr = ivhds_of mem hdr (ivrs_entries mem hdr)

pub record McfgAllocation : Type 0 where
  pub base_address : ℕ
  pub pci_segment : ℕ
  pub start_bus : ℕ
  pub end_bus : ℕ

-- The loop over the allocations of 16 bytes, from `off` on.
unfoldable pub allocations : ℕ → Bytes → (hdr total off : ℕ) → List McfgAllocation
unfolding or_bytes
allocations zero mem hdr total off = []
allocations (suc n) mem hdr total off =
    let p = hdr + off in
    let a : McfgAllocation = record {
      base_address = le64 mem p;
      pci_segment = le16 mem (p + 8);
      start_bus = mem (p + 10);
      end_bus = mem (p + 11);
    } in
    let rest = allocations n mem hdr total (off + 16) in
    if leb (off + 16) total then a ∷ rest else []

-- The calls of `mcfg_for_each_allocation_from`.
unfoldable pub mcfg_for_each_allocation_from : Bytes → ℕ → List McfgAllocation
unfolding allocations
mcfg_for_each_allocation_from mem hdr =
    allocations (sdt_length mem hdr) mem hdr (sdt_length mem hdr) 44
