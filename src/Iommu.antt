-- ===== src/Iommu.antt =====
-- src/iommu: the registry of domains, device assignments and mappings, its saved form, and the units
-- of VT-d.
pub mod State
pub mod Vtd
pub mod Saved
pub mod Tests
