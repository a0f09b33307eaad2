-- ===== src/Hv/Vcpu.antt =====
-- src/hv/vcpu.rs: the states of a virtual processor.
use zerovisor.Base.{ℕ, ◌+◌, ◌%◌, ◌^◌}
use zerovisor.Events.{Ring}
use zerovisor.Events.Trace.{Event, trace, vm_start, vm_stop}

pub data VcpuState : Type 0 where
  created running stopped : VcpuState

pub record Vcpu : Type 0 where
  pub id : ℕ
  pub state : VcpuState

-- The counters `VCPU_STARTED` and `VCPU_STOPPED`, and the trace.
pub record Counts : Type 0 where
  pub started : ℕ
  pub stopped_count : ℕ
  pub events : Ring Event

unfoldable pub new : ℕ → Vcpu
new id = record { id = id; state = created }

unfoldable pub start : Vcpu → Counts → Vcpu × Counts
unfolding trace
start v c = (
  record v { state = running },
  record c { started = (c.started + 1) % 2 ^ 64; events = trace (vm_start v.id) c.events },
)

unfoldable pub stop : Vcpu → Counts → Vcpu × Counts
unfolding trace
stop v c = (
  record v { state = stopped },
  record c {
    stopped_count = (c.stopped_count + 1) % 2 ^ 64;
    events = trace (vm_stop v.id) c.events;
  },
)
