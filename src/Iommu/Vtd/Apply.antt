-- ===== src/Iommu/Vtd/Apply.antt =====
-- src/iommu/vtd.rs: the assignments and the mappings applied with translation switched off.
use zerovisor.Base.{ℕ, true, false, List, Option, some, ◌>>=◌}
use zerovisor.Iommu.State.{Registry, list_assignments, list_mappings}
use zerovisor.Iommu.Vtd.Units.{Scope}
use zerovisor.Iommu.Vtd.Contexts.{Vtd, apply_assignments}
use zerovisor.Iommu.Vtd.Mappings.{apply_mappings}
use zerovisor.Iommu.Vtd.Registers.{Hardware, bring_all_to, refresh, invalidate_all}

module _ (hw : Hardware) where
  open hw use {Device}

  -- `drhds` are the registers of the units that the walk over the DMAR table gives.
  unfoldable pub apply_safe :
      (fuel : ℕ) → List Scope → (drhds : List ℕ) → Registry → Vtd → Device → Option (Vtd × Device)
  unfolding apply_assignments apply_mappings
  apply_safe fuel scopes drhds s v d = do
    let d1 = (bring_all_to hw drhds false d).1
    let v1 = apply_assignments scopes (list_assignments s.assigns) v
    v2 ← apply_mappings fuel (list_mappings s.mappings) v1
    let d2 = (refresh hw v2.units d1).1
    some (v2, (bring_all_to hw drhds true d2).1)

  unfoldable pub apply_and_refresh : List Scope → Registry → Vtd → Device → Vtd × Device
  unfolding apply_assignments
  apply_and_refresh scopes s v d =
      let v1 = apply_assignments scopes (list_assignments s.assigns) v in
      (v1, (invalidate_all hw v1.units d).1)
