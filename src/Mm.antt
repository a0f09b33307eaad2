-- ===== src/Mm.antt =====
-- src/mm: the builders of page tables, and the switch of the execution bit.
pub mod Memory
pub mod Tables
pub mod Npt
pub mod Paging
pub mod Toggle
pub mod Tests
