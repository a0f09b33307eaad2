-- ===== src/Iommu/Vtd/Init.antt =====
-- `minimal_init` of src/iommu/vtd.rs: the root and context tables of each unit of the DMAR table.
use zerovisor.Base.{
  ℕ, zero, suc, ◌+◌, Bool, true, false, List, [], ◌∷◌, Option, none, some, if◌then◌else◌, bit_and,
  bit_or,
}
use zerovisor.Firmware.Acpi.Dmar.{Drhd}
use zerovisor.Mm.Memory.{Memory, word, put, alloc_zeroed_page}
use zerovisor.Iommu.Vtd.Tables.{frame_mask}
use zerovisor.Iommu.Vtd.Units.{register_unit}
use zerovisor.Iommu.Vtd.Contexts.{Vtd}
use zerovisor.Iommu.Vtd.Registers.{
  Hardware, reg_gcmd, reg_gsts, reg_rtaddr, gcmd_srtp, gsts_rtps, gsts_tes, is_set, poll,
}

-- The root entries from `bus` on, `left` of them, and whether there was a page for each.
unfoldable pub link_buses : (left root bus : ℕ) → Memory → Memory × Bool
unfolding alloc_zeroed_page
link_buses zero root bus m = (m, true)
link_buses (suc left) root bus m = elim (alloc_zeroed_page m) [
  | none ↦ (m, false)
  | some (ctx, m1) ↦ link_buses left root (bus + 1) (
      put (word root (bus + bus + 1)) 0
        (put (word root (bus + bus)) (bit_or (bit_and ctx frame_mask) 1) m1))
]

module _ (hw : Hardware) where
  open hw use {Device, read, write}

  -- The root table is given to the unit, which is registered whether it answers or not.
  abbrev pub linked : Drhd → (root : ℕ) → Memory × Bool → Vtd → Device → Vtd × Device
  linked u root (m, false) v d = (record v { memory = m }, d)
  linked u root (m, true) v d =
      let table = bit_and root frame_mask in
      let d1 = write (u.reg_base + reg_rtaddr) table d in
      let d2 =
        write (u.reg_base + reg_gcmd) (bit_or (read (u.reg_base + reg_gcmd) d1) gcmd_srtp) d1 in
      let d3 = (poll hw 1000 (is_set gsts_rtps) (u.reg_base + reg_gsts) d2).1 in
      (
        record v {
          memory = m;
          units =
              register_unit (record { seg = u.seg; reg_base = u.reg_base; root_tbl = table })
                v.units;
        },
        d3,
      )

  abbrev pub with_table : Drhd → Option (ℕ × Memory) → Vtd → Device → Vtd × Device
  with_table u none v d = (v, d)
  with_table u (some (root, m)) v d = linked u root (link_buses 256 root 0 m) v d

  -- A unit that translates already is left alone.
  unfoldable pub init_unit : Drhd → Vtd → Device → Vtd × Device
  unfolding alloc_zeroed_page
  init_unit u v d =
      if is_set gsts_tes (read (u.reg_base + reg_gsts) d)
      then (v, d)
      else with_table u (alloc_zeroed_page v.memory) v d

  unfoldable pub minimal_init : List Drhd → Vtd → Device → Vtd × Device
  unfolding init_unit
  minimal_init [] v d = (v, d)
  minimal_init (u ∷ rest) v d = let (v1, d1) = init_unit u v d in minimal_init rest v1 d1
