-- ===== src/Migrate/Tracking.antt =====
-- The tracker of src/migrate/mod.rs: its start, its end and its scans of the tables of the guest.
use zerovisor.Base.{
  ℕ, ◌+◌, ◌/◌, max, Bool, true, false, List, [], Option, none, some, ◌==◌, if◌then◌else◌, u64, ◌<<◌,
}
use zerovisor.Events.{Ring}
use zerovisor.Events.Audit.{Audit, log, migrate_start, migrate_scan, migrate_stop}
use zerovisor.Events.Trace.{Event, trace, migrate_scan_round}
use zerovisor.Hv.Registry.{Vm, VmInfo, VmReg, HvVendor, find_vm}
use zerovisor.Mm.Memory.{Words}
use zerovisor.Migrate.Bitmap.{DirtyBitmap, allocate, clear_all, for_each_set}
use zerovisor.Migrate.Scan.{ept_bits, npt_bits, scan}
use zerovisor.Migrate.State.{Machine, mig_sessions, mig_scan_rounds, mig_dirty_pages}
use zerovisor.Migrate.Sender.{count}

pub data TrackerKind : Type 0 where
  intel_ept amd_npt unknown : TrackerKind

pub record DirtyTracker : Type 0 where
  pub vm_id : ℕ
  pub root_phys : ℕ
  pub memory_limit : ℕ
  pub kind : TrackerKind

pub record TrackerState : Type 0 where
  pub tracker : DirtyTracker
  pub bitmap : DirtyBitmap

-- The tracker with what it reports to.
pub record Tracking : Type 0 where
  pub state : Option TrackerState
  pub machine : Machine
  pub audit : Audit
  pub events : Ring Event
  pub tables : Words

abbrev pub tracker_of : TrackerKind → Vm → DirtyTracker
tracker_of kind vm = record {
  vm_id = vm.id;
  root_phys = vm.pml4_phys;
  memory_limit = max vm.memory_bytes (1 << 30);
  kind = kind;
}

abbrev pub with_root : TrackerKind → Vm → Option DirtyTracker
with_root kind vm = if vm.pml4_phys == 0 then none else some (tracker_of kind vm)

abbrev pub tracker_for : HvVendor → Vm → Option DirtyTracker
tracker_for HvVendor.intel vm = with_root intel_ept vm
tracker_for HvVendor.amd vm = with_root amd_npt vm
tracker_for HvVendor.unknown vm = none

unfoldable pub create_tracker_for_vm : Vm → Option DirtyTracker
create_tracker_for_vm vm = tracker_for vm.vendor vm

-- The bitmap of a tracker is installed with it.
abbrev pub install : DirtyTracker → Option DirtyBitmap → Tracking → Tracking × Bool
install tracker none t = (t, false)
install tracker (some bitmap) t = (
  record t {
    state = some (record { tracker = tracker; bitmap = bitmap });
    audit = log (migrate_start tracker.vm_id) t.audit;
    machine = count mig_sessions 1 t.machine;
  },
  true,
)

abbrev pub start_with : Bool → Option DirtyTracker → Tracking → Tracking × Bool
start_with allocated none t = (t, false)
start_with allocated (some tracker) t =
    install tracker (allocate allocated (u64 (tracker.memory_limit + 4095) / 4096)) t

-- `allocated` says whether the firmware gives the pages of the bitmap.
unfoldable pub start_tracking : Bool → Vm → Tracking → Tracking × Bool
unfolding create_tracker_for_vm
start_tracking allocated vm t = start_with allocated (create_tracker_for_vm vm) t

abbrev pub vm_of : VmInfo → Vm
vm_of info = record {
  id = info.id;
  vendor = info.vendor;
  pml4_phys = info.pml4_phys;
  memory_bytes = info.memory_bytes;
}

abbrev pub start_found : Bool → Option VmInfo → Tracking → Tracking × Bool
start_found allocated none t = (t, false)
start_found allocated (some info) t = start_tracking allocated (vm_of info) t

unfoldable pub start_tracking_by_id : Bool → ℕ → VmReg → Tracking → Tracking × Bool
unfolding start_tracking find_vm
start_tracking_by_id allocated id vms t = start_found allocated (find_vm id vms) t

abbrev pub stop_state : Option TrackerState → Tracking → Tracking × Bool
stop_state none t = (t, false)
stop_state (some st) t =
    (record t { state = none; audit = log (migrate_stop st.tracker.vm_id) t.audit }, true)

unfoldable pub stop_tracking : Tracking → Tracking × Bool
stop_tracking t = stop_state t.state t

-- The scan of each kind of tables.
abbrev pub scan_kind :
    TrackerKind → DirtyTracker → Bool → Words → DirtyBitmap → Words × DirtyBitmap × ℕ
scan_kind intel_ept tr clear_ad mem b = scan ept_bits tr.root_phys tr.memory_limit clear_ad mem b
scan_kind amd_npt tr clear_ad mem b = scan npt_bits tr.root_phys tr.memory_limit clear_ad mem b
scan_kind unknown tr clear_ad mem b = (mem, b, 0)

-- A scan with its counters and events.
unfoldable pub scan_state : Bool → TrackerState → Tracking → Tracking × ℕ
unfolding scan
scan_state clear_ad st t =
    let tr = st.tracker in
    let (tables, bitmap, dirty) = scan_kind tr.kind tr clear_ad t.tables st.bitmap in
    (
      record t {
        state = some (record st { bitmap = bitmap });
        machine = count mig_dirty_pages dirty (count mig_scan_rounds 1 t.machine);
        audit = log (migrate_scan tr.vm_id dirty) t.audit;
        events = trace (migrate_scan_round tr.vm_id dirty) t.events;
        tables = tables;
      },
      dirty,
    )

unfoldable pub scan_round_of : Option TrackerState → Bool → Tracking → Tracking × ℕ
unfolding scan_state
scan_round_of none clear_ad t = (t, 0)
scan_round_of (some st) clear_ad t = scan_state clear_ad st t

unfoldable pub scan_round : Bool → Tracking → Tracking × ℕ
unfolding scan_round_of
scan_round clear_ad t = scan_round_of t.state clear_ad t

-- `bitmap.clear_all()`
abbrev pub cleared : Option TrackerState → Option TrackerState
cleared none = none
cleared (some st) = some (record st { bitmap = clear_all st.bitmap })

-- The pages that the bitmap marks.
abbrev pub marked : Option TrackerState → List ℕ
marked none = []
marked (some st) = for_each_set st.bitmap

-- `plan_dirty_runs`: a round that clears nothing and copies nothing. With no tracker it only says so.
unfoldable pub plan_dirty_runs : Tracking → Tracking × ℕ
unfolding scan_round
plan_dirty_runs t = scan_round false (record t { state = cleared t.state })
