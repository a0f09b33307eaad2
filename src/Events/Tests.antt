-- ===== src/Events/Tests.antt =====
-- Runs of the event rings at concrete inputs.
use zerovisor.Base.{
  true, false, map, last_n, replicate, ltb, if◌then◌else◌, ℕ, ◌++◌, some, leb, ◌≡◌, refl, List, [],
  ◌∷◌, arith, length,
}
use zerovisor.Util.Decimal.{codes, put_dec, u32_to_dec, digits, reversed}
use zerovisor.Events.{Ring, recent}
use zerovisor.Events.Recent.{emits, recent-emits}
use zerovisor.Events.Audit.{
  AuditKind, boot_ready, quiet, audit_dump, audit_line, audit_cap, audit_text, iommu_assign_added,
}
use zerovisor.Events.Audit
use zerovisor.Events.Audit.Lines.{logs, audit_dump-logs}
use zerovisor.Events.Trace.{trace_dump, trace_line, clear, iommu_map_added}
use zerovisor.Events.Trace.Lines.{traces, trace_dump-traces}
use zerovisor.Events.Log.{
  Level, Output, Log, empty_log, record_to_ring, printed, panicked, silent, lev_u8, dump_filtered,
  write,
}
use zerovisor.Events.Log
use zerovisor.Events.Log.Put.{line_text}
use zerovisor.Events.Log.Lines.{Call, writes, wanted, keep, shown, dump_filtered-writes}
use zerovisor.Events.Log.Console.{write-console}

abbrev small : Ring ℕ
small = record { slots = 0 ∷ 0 ∷ []; widx = 0 }

recent-emits_example : recent 2 0 (emits 2 (7 ∷ 8 ∷ 9 ∷ []) small) ≡ 8 ∷ 9 ∷ []
unfolding recent
recent-emits_example = recent-emits 2 0 (omega arith) (7 ∷ 8 ∷ 9 ∷ []) small refl (omega arith)

abbrev boot : List AuditKind
boot = boot_ready ∷ Audit.vm_create 1 ∷ []

audit_dump-logs_example :
    audit_dump (logs boot quiet) ≡ audit_line boot_ready ∷ audit_line (Audit.vm_create 1) ∷ []
audit_dump-logs_example = audit_dump-logs boot (omega arith)

audit_text_vm :
    audit_text (iommu_assign_added 0 10 3 1 12)
    ≡ codes "audit: iommu_assign_add bdf=0:10:3.1 dom=12"
unfolding audit_text put_dec u32_to_dec digits reversed
audit_text_vm = refl

trace_dump-traces_example :
    trace_dump (traces (iommu_map_added 5 ∷ []) clear) ≡ trace_line (iommu_map_added 5) ∷ []
trace_dump-traces_example = trace_dump-traces (iommu_map_added 5 ∷ []) (omega arith)

-- A warning of the IOMMU, a message of the start-up, and an error of the IOMMU that ends, after 159
-- bytes, with a character of two bytes.
abbrev calls : List Call
calls =
    record { level = Log.warn; category = codes "iommu"; message = codes "timeout" }
    ∷ record { level = Log.info; category = codes "boot"; message = codes "ready" }
    ∷ record {
      level = Log.error;
      category = codes "IOMMU";
      message = replicate 159 0x41 ++ (0xC3 ∷ 0xA9 ∷ []);
    }
    ∷ []

dump_filtered-writes_example :
    dump_filtered 1 (codes "Io") (writes calls empty_log)
    ≡ map shown (keep (wanted 1 (codes "Io")) (last_n 256 calls))
dump_filtered-writes_example = dump_filtered-writes calls 1 (codes "Io") (omega arith)

-- The last of the three is cut within its last character, and only CR LF is left of it.
two_lines :
    map shown (keep (wanted 1 (codes "Io")) (last_n 256 calls))
    ≡ some (codes "LOG [WARN] {iommu} timeout" ++ (0x0D ∷ 0x0A ∷ [])) ∷ some (0x0D ∷ 0x0A ∷ []) ∷ []
unfolding Log.is_utf8
two_lines = refl

-- Characters of one to four bytes, and bytes that are none: the end of a character is missing, a
-- byte too many for the character, half of a pair of UTF-16, too large.
utf8_words :
    Log.is_utf8 (0x61 ∷ 0xC3 ∷ 0xA9 ∷ 0xE2 ∷ 0x82 ∷ 0xAC ∷ 0xF0 ∷ 0x9F ∷ 0x98 ∷ 0x80 ∷ []) ≡ true
unfolding Log.is_utf8
utf8_words = refl

not_utf8 :
    map Log.is_utf8 (
      (0xE2 ∷ 0x82 ∷ [])
      ∷ (0xC0 ∷ 0xAF ∷ [])
      ∷ (0xE0 ∷ 0x9F ∷ 0xBF ∷ [])
      ∷ (0xED ∷ 0xA0 ∷ 0x80 ∷ [])
      ∷ (0xF4 ∷ 0x90 ∷ 0x80 ∷ 0x80 ∷ [])
      ∷ [])
    ≡ false ∷ false ∷ false ∷ false ∷ false ∷ []
unfolding Log.is_utf8
not_utf8 = refl

-- A message of 210 bytes does not fit its line.
write-console_example : write Log.error (codes "vtd") (replicate 210 0x41) empty_log ≡ (
  record_to_ring Log.error (codes "vtd") (replicate 210 0x41) empty_log,
  if ltb (lev_u8 Log.error) empty_log.min_level
      then silent
      else if leb (length (line_text Log.error (codes "vtd") (replicate 210 0x41))) 224
      then printed (line_text Log.error (codes "vtd") (replicate 210 0x41))
      else panicked,
)
write-console_example = write-console Log.error (codes "vtd") (replicate 210 0x41) empty_log
