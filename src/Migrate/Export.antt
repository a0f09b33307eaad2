-- ===== src/Migrate/Export.antt =====
-- `export_range` of src/migrate/mod.rs: the bytes of a range of memory to a sink, without frames.
pub mod Delivered
use zerovisor.Base.{
  ℕ, zero, suc, ◌+◌, ◌-◌, ◌/◌, List, [], ◌∷◌, ◌++◌, tabulate, ltb, ◌==◌, if◌then◌else◌, u64,
}
use zerovisor.Util.Decimal.{codes}
use zerovisor.Util.Format.{u64_hex}
use zerovisor.Migrate.State.{Machine, ExportSink, console, null, buffer, snp, virtio}
use zerovisor.Migrate.Sender.{buffer_writer}
use zerovisor.Migrate.Sink.{hex_line}

-- The address and the bytes of a line of the console.
unfoldable pub export_line : ℕ → List ℕ → List ℕ
unfolding hex_line u64_hex
export_line addr bytes = hex_line (codes "0x" ++ (u64_hex addr 94 ++ codes ": ")) bytes

-- A chunk of at most 16 bytes, which the array of 64 takes at once. The sinks that write nothing
-- only read.
unfoldable pub export_chunk : ExportSink → ℕ → List ℕ → Machine → Machine
unfolding export_line buffer_writer
export_chunk console addr bytes m = record m { lines = m.lines ++ (export_line addr bytes ∷ []) }
export_chunk buffer addr bytes m = (buffer_writer bytes m).0
export_chunk null addr bytes m = m
export_chunk snp addr bytes m = m
export_chunk virtio addr bytes m = m

abbrev pub chunk_of : ℕ → ℕ
chunk_of remaining = if ltb 16 remaining then 16 else remaining

-- `phys` is the memory byte by byte. A round takes 16 bytes or all that are left.
unfoldable pub export_loop :
    ℕ → (ℕ → ℕ) → ExportSink → (addr remaining total : ℕ) → Machine → Machine × ℕ
unfolding export_chunk
export_loop zero phys sink addr remaining total m = (m, total)
export_loop (suc fuel) phys sink addr remaining total m =
    let chunk = chunk_of remaining in
    let m' = export_chunk sink addr (tabulate chunk (λ i. phys (addr + i))) m in
    let rest =
      export_loop fuel phys sink (u64 (addr + chunk)) (remaining - chunk) (u64 (total + chunk))
        m' in
    if remaining == 0 then (m, total) else rest

unfoldable pub export_range : (ℕ → ℕ) → (start_pa len : ℕ) → ExportSink → Machine → Machine × ℕ
unfolding export_loop
export_range phys start_pa len sink m = export_loop (len / 16 + 1) phys sink start_pa len 0 m
