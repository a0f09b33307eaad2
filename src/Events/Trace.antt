-- ===== src/Events/Trace.antt =====
-- src/obs/trace.rs: the trace of events.
pub mod Lines
use zerovisor.Base.{ℕ, List, [], ◌∷◌, ◌++◌, map, u32, replicate}
use zerovisor.Util.Decimal.{codes, put_dec}
use zerovisor.Events.{Ring, emit, recent}

pub data Event : Type 0 where
  vm_create vm_start vm_stop vm_destroy : ℕ → Event
  migrate_scan_round : ℕ → ℕ → Event
  iommu_invalidate_all iommu_invalidate_domain : ℕ → Event
  iommu_invalidate_bdf : (seg bus dev func : ℕ) → Event
  iommu_map_added iommu_map_removed : ℕ → Event

abbrev pub trace_cap : ℕ
trace_cap = 64

-- The state at the start, and after `clear`.
abbrev pub clear : Ring Event
clear = record { slots = replicate trace_cap (vm_create 0); widx = 0 }

-- `emit`
unfoldable pub trace : Event → Ring Event → Ring Event
unfolding emit
trace e r = emit trace_cap e r

-- `n += u32_to_dec(id as u32, &mut buf[n..])`
abbrev pub dec : ℕ → List ℕ → List ℕ
dec v line = put_dec 96 (u32 v) line

abbrev pub char : ℕ → List ℕ → List ℕ
char c line = line ++ (c ∷ [])

-- `seg:bus:dev.func`
abbrev pub put_bdf : (seg bus dev func : ℕ) → List ℕ → List ℕ
put_bdf seg bus dev func line =
    dec func (char b'.' (dec dev (char b':' (dec bus (char b':' (dec seg line))))))

-- What `dump` and `dump_with_writer` write of an event.
unfoldable pub trace_text : Event → List ℕ
unfolding put_dec
trace_text (vm_create id) = dec id (codes "trace: vm_create id=")
trace_text (vm_start id) = dec id (codes "trace: vm_start id=")
trace_text (vm_stop id) = dec id (codes "trace: vm_stop id=")
trace_text (vm_destroy id) = dec id (codes "trace: vm_destroy id=")
trace_text (migrate_scan_round id pages) =
    dec pages (dec id (codes "trace: migrate_scan id=") ++ codes " pages=")
trace_text (iommu_invalidate_all seg) = dec seg (codes "trace: vtd_inval_all seg=")
trace_text (iommu_invalidate_domain dom) = dec dom (codes "trace: vtd_inval_dom id=")
trace_text (iommu_invalidate_bdf seg bus dev func) =
    put_bdf seg bus dev func (codes "trace: vtd_inval_bdf ")
trace_text (iommu_map_added dom) = dec dom (codes "trace: vtd_map_add dom=")
trace_text (iommu_map_removed dom) = dec dom (codes "trace: vtd_map_del dom=")

-- The line buffer of 96 bytes up to its end.
unfoldable pub trace_line : Event → List ℕ
unfolding trace_text
trace_line e = trace_text e ++ (0x0D ∷ 0x0A ∷ [])

-- The lines of `dump`, which `dump_with_writer` hands to its closure.
unfoldable pub trace_dump : Ring Event → List (List ℕ)
unfolding recent trace_line
trace_dump r = map trace_line (recent trace_cap (vm_create 0) r)
