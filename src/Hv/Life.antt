-- ===== src/Hv/Life.antt =====
-- The life cycle of a virtual machine in src/hv/vm.rs. The vendor is that of the processor, and an
-- argument; the test runs of the processor's extensions that `start` ends with are left to it.
use zerovisor.Base.{ℕ, ◌+◌, ◌%◌, ◌^◌, true, [], Option, none, some, ◌==◌, if◌then◌else◌, ◌<<◌}
use zerovisor.Events.{Ring}
use zerovisor.Events.Audit
use zerovisor.Events.Audit.{Audit, log}
use zerovisor.Events.Trace
use zerovisor.Events.Trace.{Event, trace}
use zerovisor.Mm.Memory.{Memory}
use zerovisor.Mm.Tables.{build_identity_best}
use zerovisor.Mm.Npt.{npt_identity_2m}
use zerovisor.Hv.Registry.{HvVendor, Vm}

-- `NEXT_VM_ID`, the counters, the two event rings and the memory that the tables are built in.
pub record World : Type 0 where
  pub next_id : ℕ
  pub vm_created : ℕ
  pub vm_started : ℕ
  pub events : Ring Event
  pub audit : Audit
  pub memory : Memory

-- The top table, or a null pointer; without one the pages are used up.
abbrev pub tables_of : Memory → Option (ℕ × Memory) → ℕ × Memory
tables_of m none = (0, record m { pages = [] })
tables_of m (some built) = built

abbrev pub identity_for : HvVendor → (limit : ℕ) → Memory → ℕ × Memory
identity_for HvVendor.intel limit m =
    tables_of m
      (build_identity_best limit (record { large_page_2m = true; large_page_1g = true }) m)
identity_for HvVendor.amd limit m = tables_of m (npt_identity_2m limit m)
identity_for HvVendor.unknown limit m = (0, m)

unfoldable pub create : HvVendor → (memory_bytes : ℕ) → World → Vm × World
unfolding log trace build_identity_best npt_identity_2m
create vendor memory_bytes w =
    let limit = if memory_bytes == 0 then 1 << 30 else memory_bytes in
    let (pml4, memory) = identity_for vendor limit w.memory in
    (
      record { id = w.next_id; vendor = vendor; pml4_phys = pml4; memory_bytes = memory_bytes },
      record w {
        next_id = (w.next_id + 1) % 2 ^ 64;
        vm_created = (w.vm_created + 1) % 2 ^ 64;
        events = trace (Trace.vm_create w.next_id) w.events;
        audit = log (Audit.vm_create w.next_id) w.audit;
        memory = memory;
      },
    )

unfoldable pub start_vm : Vm → World → World
unfolding log trace
start_vm vm w = record w {
  vm_started = (w.vm_started + 1) % 2 ^ 64;
  events = trace (Trace.vm_start vm.id) w.events;
  audit = log (Audit.vm_start vm.id) w.audit;
}

unfoldable pub destroy : Vm → World → World
unfolding log trace
destroy vm w = record w {
  events = trace (Trace.vm_destroy vm.id) (trace (Trace.vm_stop vm.id) w.events);
  audit = log (Audit.vm_destroy vm.id) (log (Audit.vm_stop vm.id) w.audit);
}

unfoldable pub pause : Vm → World → World
unfolding trace
pause vm w = record w { events = trace (Trace.vm_stop vm.id) w.events }

unfoldable pub resume : Vm → World → World
unfolding trace
resume vm w = record w { events = trace (Trace.vm_start vm.id) w.events }
