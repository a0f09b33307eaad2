-- ===== src/Firmware/Acpi.antt =====
-- src/firmware/acpi/mod.rs: finding the tables, and the walks over the structures in them. Memory is a
-- function from addresses to bytes; a table is the address of its header. The entries of the
-- firmware's configuration table are an argument.
pub mod Dmar
pub mod Walk
pub mod Find
use zerovisor.Base.{
  ℕ, zero, suc, ◌+◌, ◌-◌, ◌*◌, ◌/◌, Bool, false, not, ◌&&◌, ◌||◌, List, [], ◌∷◌, Option, none, some,
  ltb, leb, ◌==◌, if◌then◌else◌, bit_or, ◌<<◌, u8,
}

abbrev pub Bytes : Type 0
Bytes = ℕ → ℕ

-- `l0 | (l1 << 8)`
abbrev pub le16 : Bytes → ℕ → ℕ
le16 mem p = bit_or (mem p) (mem (p + 1) << 8)

abbrev pub le32 : Bytes → ℕ → ℕ
le32 mem p = mem p + (mem (p + 1) << 8) + (mem (p + 2) << 16) + (mem (p + 3) << 24)

-- `for i in 0..8 { addr |= byte << (i * 8) }`, from the `i`-th byte on.
unfoldable pub or_bytes : ℕ → Bytes → (p i addr : ℕ) → ℕ
or_bytes zero mem p i addr = addr
or_bytes (suc n) mem p i addr = or_bytes n mem p (suc i) (bit_or addr (mem (p + i) << (i * 8)))

abbrev pub le64 : Bytes → ℕ → ℕ
le64 mem p = or_bytes 8 mem p 0 0

-- `SdtHeader`, of 36 bytes: its length is at 4.
abbrev pub sdt_size : ℕ
sdt_size = 36

abbrev pub sdt_length : Bytes → ℕ → ℕ
sdt_length mem hdr = le32 mem (hdr + 4)

-- The sum of `n` bytes from `p` on, modulo 256.
unfoldable pub calc_checksum : ℕ → Bytes → ℕ → (sum : ℕ) → ℕ
calc_checksum zero mem p sum = sum
calc_checksum (suc n) mem p sum = calc_checksum n mem (p + 1) (u8 (sum + mem p))

unfoldable pub validate_sdt : Bytes → ℕ → Bool
unfolding calc_checksum
validate_sdt mem hdr =
    let len = sdt_length mem hdr in
    if ltb len sdt_size then false else calc_checksum len mem hdr 0 == 0

-- Four bytes compared with a signature.
abbrev pub has_signature : Bytes → ℕ → (a b c d : ℕ) → Bool
has_signature mem p a b c d = mem p == a && mem (p + 1) == b && mem (p + 2) == c && mem (p + 3) == d

-- `Rsdp20` at an address: the signature "RSD PTR ", the revision at 15, the address of the RSDT at
-- 16, the length at 20 and the address of the XSDT at 24.
unfoldable pub is_rsdp : Bytes → ℕ → Bool
unfolding calc_checksum
is_rsdp mem p =
    let len = if leb 2 (mem (p + 15)) then le32 mem (p + 20) else 20 in
    has_signature mem p 0x52 0x53 0x44 0x20
    && has_signature mem (p + 4) 0x50 0x54 0x52 0x20
    && calc_checksum len mem p 0 == 0

-- The addresses of the entries with one of the GUIDs of ACPI, in order. A null address ends the
-- search.
unfoldable pub find_rsdp : Bytes → List ℕ → Option ℕ
unfolding is_rsdp
find_rsdp mem [] = none
find_rsdp mem (p ∷ rest) =
    if p == 0 then none else if is_rsdp mem p then some p else find_rsdp mem rest

-- The tables that `iter_xsdt` yields from entry `idx` on: the first that is null or not valid ends
-- the iteration.
unfoldable pub iter_xsdt : ℕ → Bytes → (xsdt idx : ℕ) → List ℕ
iter_xsdt zero mem xsdt idx = []
iter_xsdt (suc n) mem xsdt idx =
    let hdr = le64 mem (xsdt + sdt_size + 8 * idx) in
    let rest = iter_xsdt n mem xsdt (suc idx) in
    if hdr == 0 then [] else if validate_sdt mem hdr then hdr ∷ rest else []

unfoldable pub find_signed : Bytes → (Bytes → ℕ → Bool) → List ℕ → Option ℕ
find_signed mem sig [] = none
find_signed mem sig (hdr ∷ rest) = if sig mem hdr then some hdr else find_signed mem sig rest

-- The search through the 32-bit entries of the RSDT, of which those that are not valid are passed
-- over. A null entry ends it.
unfoldable pub find_rsdt : ℕ → Bytes → (Bytes → ℕ → Bool) → (rsdt idx : ℕ) → Option ℕ
unfolding validate_sdt
find_rsdt zero mem sig rsdt idx = none
find_rsdt (suc n) mem sig rsdt idx =
    let hdr = le32 mem (rsdt + sdt_size + 4 * idx) in
    let rest = find_rsdt n mem sig rsdt (suc idx) in
    if hdr == 0 then none else if validate_sdt mem hdr && sig mem hdr then some hdr else rest

abbrev pub first_of : Option ℕ → Option ℕ → Option ℕ
first_of none o = o
first_of (some a) o = some a

-- `find_table` below the root pointer. The length of the XSDT is one of 36 bytes at least: the source
-- does not check it.
unfoldable pub find_table_at : Bytes → (Bytes → ℕ → Bool) → ℕ → Option ℕ
unfolding iter_xsdt find_signed find_rsdt validate_sdt or_bytes
find_table_at mem sig rsdp =
    let rsdt = le32 mem (rsdp + 16) in
    let xsdt = le64 mem (rsdp + 24) in
    let found =
      if xsdt == 0
      then none
      else find_signed mem sig (iter_xsdt ((sdt_length mem xsdt - sdt_size) / 8) mem xsdt 0) in
    let fallback =
      if rsdt == 0
      then none
      else if not (validate_sdt mem rsdt)
      then none
      else find_rsdt ((sdt_length mem rsdt - sdt_size) / 4) mem sig rsdt 0 in
    first_of found fallback

abbrev pub table_below : Bytes → (Bytes → ℕ → Bool) → Option ℕ → Option ℕ
table_below mem sig none = none
table_below mem sig (some rsdp) = find_table_at mem sig rsdp

unfoldable pub find_table : Bytes → List ℕ → (Bytes → ℕ → Bool) → Option ℕ
unfolding find_rsdp find_table_at
find_table mem config sig = table_below mem sig (find_rsdp mem config)

-- "APIC", "FACP", "MCFG", "DMAR" and "IVRS"
abbrev pub sig_madt : Bytes → ℕ → Bool
sig_madt mem p = has_signature mem p 0x41 0x50 0x49 0x43

abbrev pub sig_fadt : Bytes → ℕ → Bool
sig_fadt mem p = has_signature mem p 0x46 0x41 0x43 0x50

abbrev pub sig_mcfg : Bytes → ℕ → Bool
sig_mcfg mem p = has_signature mem p 0x4D 0x43 0x46 0x47

abbrev pub sig_dmar : Bytes → ℕ → Bool
sig_dmar mem p = has_signature mem p 0x44 0x4D 0x41 0x52

abbrev pub sig_ivrs : Bytes → ℕ → Bool
sig_ivrs mem p = has_signature mem p 0x49 0x56 0x52 0x53

-- A structure in a table: its type, its place and its length.
pub record Entry : Type 0 where
  pub typ : ℕ
  pub off : ℕ
  pub len : ℕ

-- `while off + head <= end { ...; if len < head || off + len > end { break; } ...; off += len; }`:
-- the structures that such a loop visits. The types and the lengths stand where `typ_at` and
-- `len_at` read them.
unfoldable pub walk : ℕ → (head end : ℕ) → (typ_at len_at : ℕ → ℕ) → (off : ℕ) → List Entry
walk zero head end typ_at len_at off = []
walk (suc fuel) head end typ_at len_at off =
    let len = len_at off in
    let e : Entry = record { typ = typ_at off; off = off; len = len } in
    let rest = walk fuel head end typ_at len_at (off + len) in
    if leb (off + head) end
    then (if ltb len head || ltb end (off + len) then [] else e ∷ rest)
    else []

-- The loops over the MADT, from 44 on.
unfoldable pub madt_entries : Bytes → ℕ → List Entry
unfolding walk
madt_entries mem hdr =
    let total = sdt_length mem hdr in
    walk total 2 total (λ o. mem (hdr + o)) (λ o. mem (hdr + o + 1)) 44

abbrev pub is_lapic : Entry → Bool
is_lapic e = e.typ == 0 && leb 8 e.len

abbrev pub is_x2apic : Entry → Bool
is_x2apic e = e.typ == 9 && leb 16 e.len

unfoldable pub count_cpus : List Entry → ℕ
count_cpus [] = 0
count_cpus (e ∷ es) = if is_lapic e || is_x2apic e then suc (count_cpus es) else count_cpus es

-- The count of a table of less than 2^32 bytes does not saturate.
unfoldable pub madt_count_logical_cpus_from : Bytes → ℕ → ℕ
unfolding count_cpus madt_entries
madt_count_logical_cpus_from mem hdr = count_cpus (madt_entries mem hdr)

unfoldable pub processor_ids : Bytes → ℕ → List Entry → List ℕ
processor_ids mem hdr [] = []
processor_ids mem hdr (e ∷ es) =
    let rest = processor_ids mem hdr es in
    if is_lapic e
    then mem (hdr + e.off + 3) ∷ rest
    else if is_x2apic e
    then le32 mem (hdr + e.off + 4) ∷ rest
    else rest

unfoldable pub madt_for_each_processor_id : Bytes → ℕ → List ℕ
unfolding processor_ids madt_entries
madt_for_each_processor_id mem hdr = processor_ids mem hdr (madt_entries mem hdr)
