-- ===== src/Hv/Registry.antt =====
-- The registry of virtual machines in src/hv/vm.rs, with its array of 16 entries.
pub mod Lookup
use zerovisor.Base.{
  ℕ, zero, suc, ◌+◌, Bool, true, false, not, List, [], ◌∷◌, Option, none, some, get_or, set,
  replicate, leb, ◌==◌, if◌then◌else◌, max, ◌<<◌,
}

pub data HvVendor : Type 0 where
  intel amd unknown : HvVendor

pub record VmInfo : Type 0 where
  pub id : ℕ
  pub vendor : HvVendor
  pub pml4_phys : ℕ
  pub memory_bytes : ℕ

-- The fields of `Vm` that the registry reads.
pub record Vm : Type 0 where
  pub id : ℕ
  pub vendor : HvVendor
  pub pml4_phys : ℕ
  pub memory_bytes : ℕ

-- `VM_REG` and `VM_REG_LEN`
pub record VmReg : Type 0 where
  pub slots : List VmInfo
  pub len : ℕ

abbrev pub vm_reg_cap : ℕ
vm_reg_cap = 16

abbrev pub no_vm : VmInfo
no_vm = record { id = 0; vendor = unknown; pml4_phys = 0; memory_bytes = 0 }

abbrev pub no_vms : VmReg
no_vms = record { slots = replicate vm_reg_cap no_vm; len = 0 }

abbrev pub info_of : Vm → VmInfo
info_of vm = record {
  id = vm.id;
  vendor = vm.vendor;
  pml4_phys = vm.pml4_phys;
  memory_bytes = max vm.memory_bytes (1 << 30);
}

unfoldable pub register_vm : Vm → VmReg → VmReg × Bool
register_vm vm r =
    if leb vm_reg_cap r.len
    then (r, false)
    else (record { slots = set r.slots r.len (info_of vm); len = r.len + 1 }, true)

-- The loop from index `i` on, with `left` entries to go.
unfoldable pub find_from : ℕ → ℕ → ℕ → List VmInfo → Option VmInfo
find_from id zero i slots = none
find_from id (suc left) i slots =
    let info = get_or slots i no_vm in
    if info.id == id then some info else find_from id left (i + 1) slots

unfoldable pub find_vm : ℕ → VmReg → Option VmInfo
unfolding find_from
find_vm id r = find_from id r.len 0 r.slots

-- What `list_vms` calls its closure with.
unfoldable pub list_from : ℕ → ℕ → List VmInfo → List VmInfo
list_from zero i slots = []
list_from (suc left) i slots =
    let info = get_or slots i no_vm in
    let rest = list_from left (i + 1) slots in if not (info.id == 0) then info ∷ rest else rest

unfoldable pub list_vms : VmReg → List VmInfo
unfolding list_from
list_vms r = list_from r.len 0 r.slots
