-- ===== src/Firmware.antt =====
-- src/firmware: the tables of ACPI.
pub mod Acpi
pub mod Tests
