-- ===== src/Iommu/Vtd/Mappings.antt =====
-- src/iommu/vtd.rs: the mappings of the registry put into the second-level tables of their domains,
-- taken out, and looked up. What is printed is left out.
pub mod Applied
use zerovisor.Base.{
  ℕ, suc, ◌+◌, ◌-◌, ◌*◌, ◌||◌, List, [], ◌∷◌, Option, none, some, Bool, true, false, ◌==◌,
  if◌then◌else◌, bit_and, bit_or, u64, ◌>>=◌,
}
use zerovisor.Mm.Memory.{Words, Memory}
use zerovisor.Iommu.State.{Mapping}
use zerovisor.Iommu.Vtd.Tables.{
  frame_mask, map_range_4k, map_range_2m, unmap_range_4k, walk_second_level,
}
use zerovisor.Iommu.Vtd.Contexts.{Vtd, ensure_domain_slptptr, get_domain_slptptr}

abbrev pub with_memory : Vtd → Memory → Option Vtd
with_memory v m = some (record v { memory = m })

-- Large pages where the addresses and the length are multiples of 2 MiB.
abbrev pub map_at : ℕ → Mapping → Option ℕ × Vtd → Option Vtd
map_at fuel a (none, v) = some v
map_at fuel a (some cr3, v) =
    if bit_and (bit_or (bit_or a.iova a.pa) a.len) (2 * 1024 * 1024 - 1) == 0
    then (map_range_2m fuel cr3 a.iova a.pa a.len a.perm_w a.perm_x v.memory >>= with_memory v)
    else (map_range_4k fuel cr3 a.iova a.pa a.len a.perm_w a.perm_x v.memory >>= with_memory v)

unfoldable pub apply_mappings : ℕ → List Mapping → Vtd → Option Vtd
unfolding ensure_domain_slptptr map_range_2m map_range_4k
apply_mappings fuel [] v = some v
apply_mappings fuel (a ∷ rest) v = do
  v' ← map_at fuel a (ensure_domain_slptptr a.domid v)
  apply_mappings fuel rest v'

abbrev pub unmap_at : (fuel iova len : ℕ) → Vtd → Option ℕ → Option Vtd
unmap_at fuel iova len v none = some v
unmap_at fuel iova len v (some cr3) = unmap_range_4k fuel cr3 iova len v.memory >>= with_memory v

unfoldable pub unmap_range : (fuel dom iova len : ℕ) → Vtd → Option Vtd
unfolding get_domain_slptptr unmap_range_4k
unmap_range fuel dom iova len v = unmap_at fuel iova len v (get_domain_slptptr dom v)

abbrev pub missing : Option ℕ → Bool
missing none = true
missing (some pa) = false

-- Whether the first or the last page of a mapping has no translation.
abbrev pub unmapped_in : Words → Mapping → Option ℕ → Bool
unmapped_in mem a none = true
unmapped_in mem a (some cr3) =
    missing (walk_second_level mem cr3 a.iova).0
    || missing (walk_second_level mem cr3 (bit_and (u64 (a.iova + (a.len - 1))) frame_mask)).0

unfoldable pub verify_mappings : List Mapping → Vtd → ℕ
unfolding get_domain_slptptr walk_second_level
verify_mappings [] v = 0
verify_mappings (a ∷ rest) v =
    let issues = verify_mappings rest v in
    if unmapped_in v.memory.words a (get_domain_slptptr a.domid v) then suc issues else issues
