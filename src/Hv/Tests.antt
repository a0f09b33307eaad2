-- ===== src/Hv/Tests.antt =====
-- Runs of src/hv at concrete inputs.
use zerovisor.Base.{◌≡◌, ◌≤◌, ◌<◌, refl, true, false, some, ◌⊎◌}
use zerovisor.Hv.Registry.{Vm, intel, no_vms, register_vm, find_vm, info_of, vm_reg_cap}
use zerovisor.Hv.Registry.Lookup.{find_vm-register_vm}

abbrev guest : Vm
guest = record { id = 7; vendor = intel; pml4_phys = 0x5000; memory_bytes = 0 }

find_vm-register_vm_example :
    let (r', ok) = register_vm guest no_vms in
    ((0 < vm_reg_cap) × (ok ≡ true) × (find_vm 7 r' ≡ some (info_of guest)))
    ⊎ ((vm_reg_cap ≤ 0) × (ok ≡ false) × (r' ≡ no_vms))
unfolding find_vm
find_vm-register_vm_example = find_vm-register_vm guest 7 no_vms refl
