-- ===== src/Lib.antt =====
-- Verification of Zerovisor, a UEFI hypervisor for x86-64 written in Rust.
--
-- The program's parts that are modelled, and how they work together:
--   * src/migrate/mod.rs, live migration. Pages of guest memory are framed (a header of 28 bytes with
--     a CRC32, then a raw or run-length coded payload) and go through a writer, often cut into
--     chunks, into the channel buffer, a ring of bytes that overwrites its oldest. The receiving
--     side walks the ring with a cursor: `chan_verify_ex` checks the frames, `chan_handle_ctrl`
--     answers control frames, `replay_to_buffer` expands pages. `scan_ept` and `scan_npt` find the
--     dirty pages in the nested page tables and set their bits in the bitmap; `precopy` copies these
--     pages, round after round.
--   * src/iommu/state.rs, the registry of domains, device assignments and mappings, which notes what
--     it does in the audit trail of src/diag/audit.rs.
--   * src/iommu/vtd.rs, the driver for the remapping units of Intel. A unit has a root table and
--     context tables, which lead from a device to the second-level tables of its domain; the
--     mappings of the registry are put into these and taken out. Commands to the registers of a
--     unit switch translation and refresh what it has cached. The units are found by the walks
--     over the DMAR table in src/firmware/acpi/mod.rs.
--   * src/mm/ept.rs and src/mm/npt.rs, the builders of identity-mapped nested page tables.
--   * src/hv/vm.rs and src/hv/vcpu.rs, the registry of virtual machines, their life cycle and the
--     processors' states, which are noted in the event trace of src/obs/trace.rs.
--   * src/iommu/mod.rs and the end of src/migrate/mod.rs save assignments and settings in variables
--     of the firmware, and load them.
--   * src/obs/log.rs, the log: a ring of recent entries and what the console shows of them.
--   * src/util/crc32.rs, src/util/format.rs and `u32_to_dec` of src/firmware/acpi/mod.rs, on which
--     the others stand.
--
-- The files: Base and its children have the shared names, tests, lists, words and slot tables;
-- Bits has laws of the bit operations.
--   * Util/Crc32 (crc32, crc32_update, crc32_ptr), Util/Format (u64_hex), Util/Decimal
--     (u32_to_dec)
--   * Events (record and emit), Events/Audit, Events/Trace and Events/Log (their events and
--     dumps)
--   * Migrate/Channel (chan_write, chan_new, chan_clear, chan_stats, chan_consume),
--     Migrate/Cursor (ChanCursor), Migrate/Codec (FrameHeader), Migrate/Rle (rle_compress_page),
--     Migrate/State (the static variables), Migrate/Sender (writers, write_chunked and the
--     frames), Migrate/Sink (send_dirty_pages, resend_from, send_ctrl), Migrate/Verify
--     (chan_verify_ex), Migrate/Control (chan_handle_ctrl), Migrate/Session (a sequence of
--     frame_and_send_page), Migrate/Replay (replay_to_buffer), Migrate/Bitmap (DirtyBitmap),
--     Migrate/Scan (scan_ept, scan_npt), Migrate/Tracking (start_tracking, stop_tracking,
--     scan_round), Migrate/Export (export_range), Migrate/Precopy (precopy, export_dirty_runs),
--     Migrate/Precopy/Throttled (precopy_throttled), Migrate/Settings (cfg_save, cfg_load, reset,
--     txlog_dump)
--   * Iommu/State (every function of src/iommu/state.rs), Iommu/Saved (cfg_save and cfg_load of
--     src/iommu/mod.rs)
--   * Iommu/Vtd/Tables (map_range_4k, map_range_2m, unmap_range_4k, walk_second_level),
--     Iommu/Vtd/Units (VTD_UNITS), Iommu/Vtd/Contexts (apply_assignments, sync_contexts,
--     verify_state), Iommu/Vtd/Mappings (apply_mappings, unmap_range, verify_mappings),
--     Iommu/Vtd/Registers (the commands), Iommu/Vtd/Apply (apply_safe), Iommu/Vtd/Init
--     (minimal_init)
--   * Firmware/Acpi (find_table and the MADT), Firmware/Acpi/Dmar (DMAR, IVRS, MCFG)
--   * Hv/Registry (register_vm, find_vm, list_vms), Hv/Life (Vm), Hv/Vcpu (Vcpu)
--   * Mm/Memory (alloc_zeroed_page), Mm/Tables and Mm/Npt (the builders, EPTP), Mm/Toggle
--     (ept_toggle_exec), Mm/Paging (build_identity_2m of src/mm/paging.rs)
-- The children of these modules have the proofs, and a module Tests of each part its runs.
--
-- The state of a part, its static variables in the source, is a record that each operation takes and
-- returns. Memory is a list of bytes or a function from addresses to words. Machine integers are
-- natural numbers with the wrap-around written out; the increments of counters are kept as a list
-- of additions. What the firmware gives (pages, the contents of guest memory) is an argument.
--
-- Loops that are not over a list have fuel: the length of the contents for the walks over the channel,
-- since each round moves the cursor by at least a byte; the length of the source for writers; the
-- number of pages for the scans, since each round moves on by a page; the length of a table for the
-- loops over its structures; one round more than pages for the ranges of vtd.rs, with `none` where
-- the fuel runs out.
--
-- Not modelled: console output other than the dumps of events, the builds with the features snp and
-- virtio-net, which are off by default, and the parts that execute privileged instructions or talk
-- to devices and firmware (src/arch, src/virtio), with the command line, the messages and the
-- start-up that tie them together. The registers of the remapping units are read and written through
-- an argument, of which the theorems say what they need of it.
pub mod Base
pub mod Bits
pub mod Events
pub mod Firmware
pub mod Hv
pub mod Iommu
pub mod Migrate
pub mod Mm
pub mod Util
