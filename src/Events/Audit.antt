-- ===== src/Events/Audit.antt =====
-- src/diag/audit.rs: the audit trail.
pub mod Lines
use zerovisor.Base.{ℕ, List, [], ◌∷◌, ◌++◌, map, u32, replicate}
use zerovisor.Util.Decimal.{codes, put_dec}
use zerovisor.Events.{Ring, emit, recent}

pub data AuditKind : Type 0 where
  boot_start boot_ready : AuditKind
  vm_create vm_start vm_stop vm_destroy : ℕ → AuditKind
  iommu_domain_create : ℕ → AuditKind
  iommu_assign_added iommu_assign_removed : (seg bus dev func dom : ℕ) → AuditKind
  migrate_start : ℕ → AuditKind
  migrate_scan : ℕ → ℕ → AuditKind
  migrate_stop : ℕ → AuditKind

abbrev pub audit_cap : ℕ
audit_cap = 256

abbrev pub Audit : Type 0
Audit = Ring AuditKind

-- Nothing recorded.
abbrev pub quiet : Audit
quiet = record { slots = replicate audit_cap boot_start; widx = 0 }

-- `record`
unfoldable pub log : AuditKind → Audit → Audit
unfolding emit
log e a = emit audit_cap e a

-- `n += u32_to_dec(id as u32, &mut buf[n..])`
abbrev pub dec : ℕ → List ℕ → List ℕ
dec v line = put_dec 160 (u32 v) line

abbrev pub char : ℕ → List ℕ → List ℕ
char c line = line ++ (c ∷ [])

-- `seg:bus:dev.func dom=id`
abbrev pub put_bdf : (seg bus dev func dom : ℕ) → List ℕ → List ℕ
put_bdf seg bus dev func dom line =
    let bdf = dec func (char b'.' (dec dev (char b':' (dec bus (char b':' (dec seg line)))))) in
    dec dom (bdf ++ codes " dom=")

-- What `dump` writes of an event.
unfoldable pub audit_text : AuditKind → List ℕ
unfolding put_dec
audit_text boot_start = codes "audit: boot_start"
audit_text boot_ready = codes "audit: boot_ready"
audit_text (vm_create id) = dec id (codes "audit: vm_create id=")
audit_text (vm_start id) = dec id (codes "audit: vm_start id=")
audit_text (vm_stop id) = dec id (codes "audit: vm_stop id=")
audit_text (vm_destroy id) = dec id (codes "audit: vm_destroy id=")
audit_text (iommu_domain_create dom) = dec dom (codes "audit: iommu_domain_create id=")
audit_text (iommu_assign_added seg bus dev func dom) =
    put_bdf seg bus dev func dom (codes "audit: iommu_assign_add bdf=")
audit_text (iommu_assign_removed seg bus dev func dom) =
    put_bdf seg bus dev func dom (codes "audit: iommu_assign_del bdf=")
audit_text (migrate_start id) = dec id (codes "audit: migrate_start id=")
audit_text (migrate_scan id pages) =
    dec pages (dec id (codes "audit: migrate_scan id=") ++ codes " pages=")
audit_text (migrate_stop id) = dec id (codes "audit: migrate_stop id=")

-- The line buffer of 160 bytes up to its end.
unfoldable pub audit_line : AuditKind → List ℕ
unfolding audit_text
audit_line e = audit_text e ++ (0x0D ∷ 0x0A ∷ [])

-- The lines that `dump` prints.
unfoldable pub audit_dump : Audit → List (List ℕ)
unfolding recent audit_line
audit_dump a = map audit_line (recent audit_cap boot_start a)
