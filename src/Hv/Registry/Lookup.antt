-- ===== src/Hv/Registry/Lookup.antt =====
-- A virtual machine that is registered is found.
use native.Mathlib.Decide.{dec_lt}
use zerovisor.Base.{
  ℕ, zero, suc, ◌+◌, ◌≤◌, ◌<◌, ◌≡◌, inl, inr, ◌⊎◌, refl, true, false, List, none, some, arith,
  length, get_or, set, get_or-set_self, get_or-set_ne, leb, ◌==◌, if◌then◌else◌,
}
use zerovisor.Hv.Registry.{
  Vm, VmInfo, VmReg, no_vm, info_of, register_vm, find_from, find_vm, vm_reg_cap,
}

-- Entries before the one written, as before; then the new one.
find_from-set :
    (id left i at : ℕ) (x : VmInfo) (slots : List VmInfo)
    → i + left ≡ at
    → at < length slots
    → find_from id (suc left) i (set slots at x) ≡ elim (find_from id left i slots) [
      | some y ↦ some y
      | none ↦ if x.id == id then some x else none
    ]
unfolding find_from
find_from-set id zero i at x slots e h =
    let here : get_or (set slots i x) i no_vm ≡ x = get_or-set_self slots i x no_vm (omega arith) in
    let same : at ≡ i = omega arith in rw (same, here) refl
find_from-set id (suc left) i at x slots e h =
    let other : get_or (set slots at x) i no_vm ≡ get_or slots i no_vm =
      get_or-set_ne slots at i x no_vm (omega arith) in
    let ih = find_from-set id left (i + 1) at x slots (omega arith) h in
    rw (other, ih) (ground arith)

-- With room in the array, registering succeeds and makes the machine known by its identifier, unless
-- one with it was registered before, which is still found then; a full registry refuses, unchanged.
pub find_vm-register_vm :
    (vm : Vm) (id : ℕ) (r : VmReg)
    → length r.slots ≡ vm_reg_cap
    → let (r', ok) = register_vm vm r in
      ((r.len < vm_reg_cap)
        × (ok ≡ true)
        × (find_vm id r' ≡ elim (find_vm id r) [
          | some y ↦ some y
          | none ↦ if vm.id == id then some (info_of vm) else none
        ]))
      ⊎ ((vm_reg_cap ≤ r.len) × (ok ≡ false) × (r' ≡ r))
unfolding register_vm find_vm
find_vm-register_vm vm id r n = elim (dec_lt r.len vm_reg_cap) [
  | yes p ↦
      let room : leb vm_reg_cap r.len ≡ false = ground arith in
      let next : r.len + 1 ≡ suc r.len = omega arith in
      rw (room, next)
        (inl (
          p,
          refl,
          find_from-set id r.len 0 r.len (info_of vm) r.slots (omega arith) (omega arith),
        ))
  | no p ↦
      let full : leb vm_reg_cap r.len ≡ true = ground arith in
      rw full (inr (omega arith, refl, refl))
]
