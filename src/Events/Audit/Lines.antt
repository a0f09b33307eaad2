-- ===== src/Events/Audit/Lines.antt =====
-- What the audit dump prints, and that its lines fit their buffer.
use zerovisor.Base.{
  ℕ, ◌+◌, ◌≤◌, ◌<◌, ◌^◌, ◌≡◌, ap, ◌∙◌, refl, List, [], ◌∷◌, ◌++◌, arith, length, u32, last_n, map,
}
use zerovisor.Util.Decimal.{codes}
use zerovisor.Util.Decimal.Value.{put_dec-within, append-within}
use zerovisor.Events.{recent}
use zerovisor.Events.Recent.{emits, recent-emits}
use zerovisor.Events.Audit.{
  AuditKind, Audit, boot_start, boot_ready, vm_create, vm_start, vm_stop, vm_destroy,
  iommu_domain_create, iommu_assign_added, iommu_assign_removed, migrate_start, migrate_scan,
  migrate_stop, audit_cap, quiet, dec, char, put_bdf, audit_text, audit_line, audit_dump, log,
}

dec-within : (v n : ℕ) (line : List ℕ) → length line ≤ n → length (dec v line) ≤ n + 10
dec-within v n line h = put_dec-within 160 (u32 v) n line h

char-within : (c n : ℕ) (line : List ℕ) → length line ≤ n → length (char c line) ≤ n + 1
char-within c n line h = append-within n line (c ∷ []) h

put_bdf-within :
    (seg bus dev func dom n : ℕ) (line : List ℕ)
    → length line ≤ n
    → length (put_bdf seg bus dev func dom line) ≤ n + 10 + 1 + 10 + 1 + 10 + 1 + 10 + 5 + 10
put_bdf-within seg bus dev func dom n line h = dec-within dom _ _ (
    append-within _ _ (codes " dom=") (
      dec-within func _ _ (
        char-within b'.' _ _ (
          dec-within dev _ _ (
            char-within b':' _ _
              (dec-within bus _ _ (char-within b':' _ _ (dec-within seg n line h))))))))

scan-within :
    (id pages n : ℕ) (line : List ℕ)
    → length line ≤ n
    → length (dec pages (dec id line ++ codes " pages=")) ≤ n + 10 + 7 + 10
scan-within id pages n line h =
    dec-within pages _ _ (append-within _ _ (codes " pages=") (dec-within id n line h))

text-within : (e : AuditKind) → length (audit_text e) ≤ 158
unfolding audit_text
text-within boot_start = omega arith
text-within boot_ready = omega arith
text-within (vm_create id) =
    omega (arith, dec-within id 60 (codes "audit: vm_create id=") (omega arith))
text-within (vm_start id) =
    omega (arith, dec-within id 60 (codes "audit: vm_start id=") (omega arith))
text-within (vm_stop id) =
    omega (arith, dec-within id 60 (codes "audit: vm_stop id=") (omega arith))
text-within (vm_destroy id) =
    omega (arith, dec-within id 60 (codes "audit: vm_destroy id=") (omega arith))
text-within (iommu_domain_create id) =
    omega (arith, dec-within id 60 (codes "audit: iommu_domain_create id=") (omega arith))
text-within (migrate_start id) =
    omega (arith, dec-within id 60 (codes "audit: migrate_start id=") (omega arith))
text-within (migrate_stop id) =
    omega (arith, dec-within id 60 (codes "audit: migrate_stop id=") (omega arith))
text-within (iommu_assign_added seg bus dev func dom) = omega (
  arith,
  put_bdf-within seg bus dev func dom 60 (codes "audit: iommu_assign_add bdf=") (omega arith),
)
text-within (iommu_assign_removed seg bus dev func dom) = omega (
  arith,
  put_bdf-within seg bus dev func dom 60 (codes "audit: iommu_assign_del bdf=") (omega arith),
)
text-within (migrate_scan id pages) =
    omega (arith, scan-within id pages 60 (codes "audit: migrate_scan id=") (omega arith))

-- No line of the audit dump is longer than its buffer of 160 bytes.
pub audit_line-within : (e : AuditKind) → length (audit_line e) ≤ 160
unfolding audit_line
audit_line-within e = append-within 158 (audit_text e) (0x0D ∷ 0x0A ∷ []) (text-within e)

unfoldable pub logs : List AuditKind → Audit → Audit
unfolding log
logs [] a = a
logs (e ∷ es) a = logs es (log e a)

logs-emits : (es : List AuditKind) (a : Audit) → logs es a ≡ emits audit_cap es a
unfolding logs log emits
logs-emits [] a = refl
logs-emits (e ∷ es) a = logs-emits es (log e a)

-- From the start on, after less than 2 ^ 64 events the audit dump prints the lines of the last 256
-- of them, in the order in which they were recorded.
pub audit_dump-logs :
    (es : List AuditKind)
    → length es < 2 ^ 64
    → audit_dump (logs es quiet) ≡ map audit_line (last_n audit_cap es)
unfolding audit_dump recent
audit_dump-logs es h =
    ap audit_dump (logs-emits es quiet)
    ∙ ap (map audit_line)
        (recent-emits audit_cap boot_start (omega arith) es quiet refl (omega arith))
