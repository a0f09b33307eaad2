-- ===== src/Iommu/Vtd.antt =====
-- src/iommu/vtd.rs: the second-level tables.
pub mod Tables
pub mod Trees
pub mod Units
pub mod Contexts
pub mod Mappings
pub mod Registers
pub mod Apply
pub mod Init
pub mod Tests
