-- ===== src/Firmware/Tests.antt =====
-- Runs of src/firmware/acpi/mod.rs at concrete inputs.
use zerovisor.Base.{ℕ, ◌+◌, ◌≡◌, refl, List, [], ◌∷◌, ◌++◌, arith, get_or, map, replicate, All}
use zerovisor.Firmware.Acpi.{Bytes, Entry, iter_xsdt, validate_sdt, or_bytes}
use zerovisor.Firmware.Acpi.Dmar.{
  drhd_at, is_drhd, dmar_entries, dmar_for_each_drhd_from, dmar_for_each_device_scope_from,
}
use zerovisor.Firmware.Acpi.Find.{
  keep, dmar_for_each_drhd_from-LaidOut, dmar_entries-ReadsInside, ReadsInside, iter_xsdt-stops,
}

-- A DMAR table of 72 bytes at 0: one unit of segment 1 with registers at 0xFED90000 and one scope.
abbrev dmar_bytes : List ℕ
dmar_bytes =
    (0x44 ∷ 0x4D ∷ 0x41 ∷ 0x52 ∷ 72 ∷ 0 ∷ 0 ∷ 0 ∷ [])
    ++ (replicate 40 0
        ++ (0 ∷ 0 ∷ 24 ∷ 0 ∷ 1 ∷ 0 ∷ 1 ∷ 0 ∷ 0 ∷ 0 ∷ 0xD9 ∷ 0xFE ∷ 0 ∷ 0 ∷ 0 ∷ 0 ∷ 1 ∷ 8 ∷ 0 ∷ 0 ∷ 3
            ∷ 7 ∷ 31 ∷ 2 ∷ []))

abbrev table : Bytes
table p = get_or dmar_bytes p 0

abbrev unit_entry : Entry
unit_entry = record { typ = 0; off = 48; len = 24 }

dmar_for_each_drhd_from-LaidOut_example :
    dmar_for_each_drhd_from table 0 ≡ map (drhd_at table 0) (keep is_drhd (unit_entry ∷ []))
dmar_for_each_drhd_from-LaidOut_example =
    dmar_for_each_drhd_from-LaidOut table 0 (unit_entry ∷ []) (omega arith)

drhd_found : dmar_for_each_drhd_from table 0 ≡ record { seg = 1; reg_base = 0xFED90000 } ∷ []
unfolding dmar_for_each_drhd_from
drhd_found = refl

-- The path starts at byte 6 of the scope, and the bus is taken from byte 4.
scope_found :
    dmar_for_each_device_scope_from table 0
    ≡ record { seg = 1; reg = 0xFED90000; bus = 3; dev = 31; func = 2 } ∷ []
unfolding dmar_for_each_device_scope_from
scope_found = refl

dmar_entries-ReadsInside_example : All (ReadsInside table 0) (dmar_entries table 0)
dmar_entries-ReadsInside_example = dmar_entries-ReadsInside table 0

-- An XSDT at 0 whose second entry is a table with a wrong checksum.
abbrev xsdt_memory : Bytes
xsdt_memory p =
    get_or (replicate 36 0 ++ (0 ∷ 1 ∷ 0 ∷ 0 ∷ 0 ∷ 0 ∷ 0 ∷ 0 ∷ 0 ∷ 2 ∷ 0 ∷ 0 ∷ 0 ∷ 0 ∷ 0 ∷ 0 ∷ []))
      p 0

iter_xsdt-stops_example : iter_xsdt (1 + 3) xsdt_memory 0 0 ≡ iter_xsdt 1 xsdt_memory 0 0
unfolding validate_sdt or_bytes
iter_xsdt-stops_example = iter_xsdt-stops 1 2 0 xsdt_memory 0 refl
