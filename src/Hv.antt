-- ===== src/Hv.antt =====
-- src/hv: virtual machines and processors.
pub mod Registry
pub mod Vcpu
pub mod Life
pub mod Tests
