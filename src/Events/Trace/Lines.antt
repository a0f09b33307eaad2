-- ===== src/Events/Trace/Lines.antt =====
-- What the trace dump prints, and that its lines fit their buffer.
use zerovisor.Base.{
  ℕ, ◌+◌, ◌≤◌, ◌<◌, ◌^◌, ◌≡◌, ap, ◌∙◌, refl, List, [], ◌∷◌, ◌++◌, arith, length, u32, last_n, map,
}
use zerovisor.Util.Decimal.{codes}
use zerovisor.Util.Decimal.Value.{put_dec-within, append-within}
use zerovisor.Events.{Ring, recent}
use zerovisor.Events.Recent.{emits, recent-emits}
use zerovisor.Events.Trace.{
  Event, vm_create, vm_start, vm_stop, vm_destroy, migrate_scan_round, iommu_invalidate_all,
  iommu_invalidate_domain, iommu_invalidate_bdf, iommu_map_added, iommu_map_removed, trace_cap,
  clear, dec, char, put_bdf, trace_text, trace_line, trace_dump, trace,
}

dec-within : (v n : ℕ) (line : List ℕ) → length line ≤ n → length (dec v line) ≤ n + 10
dec-within v n line h = put_dec-within 96 (u32 v) n line h

char-within : (c n : ℕ) (line : List ℕ) → length line ≤ n → length (char c line) ≤ n + 1
char-within c n line h = append-within n line (c ∷ []) h

scan-within :
    (id pages n : ℕ) (line : List ℕ)
    → length line ≤ n
    → length (dec pages (dec id line ++ codes " pages=")) ≤ n + 10 + 7 + 10
scan-within id pages n line h =
    dec-within pages _ _ (append-within _ _ (codes " pages=") (dec-within id n line h))

bdf-within :
    (seg bus dev func n : ℕ) (line : List ℕ)
    → length line ≤ n
    → length (put_bdf seg bus dev func line) ≤ n + 10 + 1 + 10 + 1 + 10 + 1 + 10
bdf-within seg bus dev func n line h = dec-within func _ _ (
    char-within b'.' _ _ (
      dec-within dev _ _ (
        char-within b':' _ _
          (dec-within bus _ _ (char-within b':' _ _ (dec-within seg n line h))))))

text-within : (e : Event) → length (trace_text e) ≤ 94
unfolding trace_text
text-within (vm_create id) =
    omega (arith, dec-within id 40 (codes "trace: vm_create id=") (omega arith))
text-within (vm_start id) =
    omega (arith, dec-within id 40 (codes "trace: vm_start id=") (omega arith))
text-within (vm_stop id) =
    omega (arith, dec-within id 40 (codes "trace: vm_stop id=") (omega arith))
text-within (vm_destroy id) =
    omega (arith, dec-within id 40 (codes "trace: vm_destroy id=") (omega arith))
text-within (iommu_invalidate_all id) =
    omega (arith, dec-within id 40 (codes "trace: vtd_inval_all seg=") (omega arith))
text-within (iommu_invalidate_domain id) =
    omega (arith, dec-within id 40 (codes "trace: vtd_inval_dom id=") (omega arith))
text-within (iommu_map_added id) =
    omega (arith, dec-within id 40 (codes "trace: vtd_map_add dom=") (omega arith))
text-within (iommu_map_removed id) =
    omega (arith, dec-within id 40 (codes "trace: vtd_map_del dom=") (omega arith))
text-within (iommu_invalidate_bdf seg bus dev func) =
    omega (arith, bdf-within seg bus dev func 40 (codes "trace: vtd_inval_bdf ") (omega arith))
text-within (migrate_scan_round id pages) =
    omega (arith, scan-within id pages 40 (codes "trace: migrate_scan id=") (omega arith))

-- No line of the trace dump is longer than its buffer of 96 bytes.
pub trace_line-within : (e : Event) → length (trace_line e) ≤ 96
unfolding trace_line
trace_line-within e = append-within 94 (trace_text e) (0x0D ∷ 0x0A ∷ []) (text-within e)

unfoldable pub traces : List Event → Ring Event → Ring Event
unfolding trace
traces [] r = r
traces (e ∷ es) r = traces es (trace e r)

traces-emits : (es : List Event) (r : Ring Event) → traces es r ≡ emits trace_cap es r
unfolding traces trace emits
traces-emits [] r = refl
traces-emits (e ∷ es) r = traces-emits es (trace e r)

-- From the start or a `clear` on, after less than 2 ^ 64 events the trace dump prints the lines of
-- the last 64 of them, in the order in which they were recorded.
pub trace_dump-traces :
    (es : List Event)
    → length es < 2 ^ 64
    → trace_dump (traces es clear) ≡ map trace_line (last_n trace_cap es)
unfolding trace_dump recent
trace_dump-traces es h =
    ap trace_dump (traces-emits es clear)
    ∙ ap (map trace_line)
        (recent-emits trace_cap (vm_create 0) (omega arith) es clear refl (omega arith))
