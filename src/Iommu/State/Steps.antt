-- ===== src/Iommu/State/Steps.antt =====
-- The operations of the registry as steps, from the empty registry on.
use zerovisor.Base.{
  ℕ, zero, suc, ◌+◌, ◌^◌, ◌≤◌, ◌<◌, refl, ◌∙◌, Bool, false, ◌||◌, not, List, [], ◌∷◌, arith, ◌==◌,
  any, All, All-replace_first, All-replace_all, length, length-replace_first, length-replace_all,
  replicate,
}
use zerovisor.Iommu.State.{
  Bdf, Registry, Counter, empty, is_domain, create_domain, domain_exists, assign_device,
  destroy_domain, unassign_device, add_mapping, remove_mapping, remove_mappings_for_domain,
  is_mapping, mapped_to, unmapped,
}
use zerovisor.Iommu.State.Consistent.{
  IsConsistent, Distinct, Assigned, Mapped, Below, branches, with_mappings,
  create_domain-IsConsistent, destroy_domain-IsConsistent, assign_device-IsConsistent,
  unassign_device-IsConsistent,
}

counting :
    (s : Registry) (counts : List Counter)
    → IsConsistent s
    → IsConsistent (record s { counts = counts })
counting s counts c = record {
  distinct = c.distinct;
  assigned = c.assigned;
  mapped = c.mapped;
  below = c.below;
  domain_slots = c.domain_slots;
  assign_slots = c.assign_slots;
  mapping_slots = c.mapping_slots;
}

add_mapping-IsConsistent :
    (domid iova pa len : ℕ) (r w x : Bool) (s : Registry)
    → IsConsistent s
    → IsConsistent (add_mapping domid iova pa len r w x s).0
unfolding add_mapping domain_exists
add_mapping-IsConsistent domid iova pa len r w x s c =
    branches IsConsistent (not (any (is_domain domid) s.domains) || len == 0) _ _ (λ t. c)
      (λ t.
        branches IsConsistent (any (λ m. not m.used) s.mappings) _ _
          (λ k. counting _ _ (
            with_mappings s _ c
              (All-replace_first (Mapped s.domains) _ _ _ (λ m p u. ground (arith, t)) s.mappings
                (λ m p. p) c.mapped)
              (length-replace_first _ _ s.mappings ∙ c.mapping_slots)))
          (λ k. c))

remove_mapping-IsConsistent :
    (domid iova len : ℕ) (s : Registry)
    → IsConsistent s
    → IsConsistent (remove_mapping domid iova len s).0
unfolding remove_mapping
remove_mapping-IsConsistent domid iova len s c =
    branches IsConsistent (any (is_mapping domid iova len) s.mappings) _ _
      (λ t. counting _ _ (
        with_mappings s _ c
          (All-replace_first (Mapped s.domains) (Mapped s.domains) (is_mapping domid iova len)
            unmapped (λ m p u. absurd cc) s.mappings (λ m p. p) c.mapped)
          (length-replace_first (is_mapping domid iova len) unmapped s.mappings ∙ c.mapping_slots)))
      (λ t. c)

remove_mappings_for_domain-IsConsistent :
    (domid : ℕ) (s : Registry)
    → IsConsistent s
    → IsConsistent (remove_mappings_for_domain domid s).0
unfolding remove_mappings_for_domain
remove_mappings_for_domain-IsConsistent domid s c = counting _ _ (
    with_mappings s _ c
      (All-replace_all (Mapped s.domains) (Mapped s.domains) (mapped_to domid) unmapped
        (λ m p u. absurd cc) s.mappings (λ m q p. p) c.mapped)
      (length-replace_all (mapped_to domid) unmapped s.mappings ∙ c.mapping_slots))

pub data Op : Type 0 where
  create : Op
  destroy : ℕ → Op
  assign : Bdf → ℕ → Op
  unassign : Bdf → Op
  map_range : (domid iova pa len : ℕ) → (r w x : Bool) → Op
  unmap_range : (domid iova len : ℕ) → Op
  unmap_domain : ℕ → Op

unfoldable pub step : Op → Registry → Registry
unfolding create_domain destroy_domain assign_device unassign_device add_mapping remove_mapping
    remove_mappings_for_domain
step create s = (create_domain s).0
step (destroy id) s = (destroy_domain id s).0
step (assign b domid) s = (assign_device b domid s).0
step (unassign b) s = (unassign_device b s).0
step (map_range domid iova pa len r w x) s = (add_mapping domid iova pa len r w x s).0
step (unmap_range domid iova len) s = (remove_mapping domid iova len s).0
step (unmap_domain domid) s = (remove_mappings_for_domain domid s).0

unfoldable pub run : List Op → Registry → Registry
unfolding step
run [] s = s
run (op ∷ ops) s = run ops (step op s)

-- Each operation keeps the registry consistent: the identifiers in use are different and below the
-- next one, assignments and mappings refer to domains that exist, and the tables keep their sizes.
-- There must be an identifier left.
pub step-IsConsistent :
    (op : Op) (s : Registry) → IsConsistent s → s.next_id + 1 < 2 ^ 16 → IsConsistent (step op s)
unfolding step
step-IsConsistent create s c h = create_domain-IsConsistent s c h
step-IsConsistent (destroy id) s c h = destroy_domain-IsConsistent id s c
step-IsConsistent (assign b domid) s c h = assign_device-IsConsistent b domid s c
step-IsConsistent (unassign b) s c h = unassign_device-IsConsistent b s c
step-IsConsistent (map_range domid iova pa len r w x) s c h =
    add_mapping-IsConsistent domid iova pa len r w x s c
step-IsConsistent (unmap_range domid iova len) s c h =
    remove_mapping-IsConsistent domid iova len s c
step-IsConsistent (unmap_domain domid) s c h = remove_mappings_for_domain-IsConsistent domid s c

next_id-step : (op : Op) (s : Registry) → (step op s).next_id ≤ s.next_id + 1
unfolding step create_domain destroy_domain assign_device unassign_device add_mapping remove_mapping
    remove_mappings_for_domain
next_id-step create s = ground arith
next_id-step (destroy id) s = ground arith
next_id-step (assign b domid) s = ground arith
next_id-step (unassign b) s = ground arith
next_id-step (map_range domid iova pa len r w x) s = ground arith
next_id-step (unmap_range domid iova len) s = ground arith
next_id-step (unmap_domain domid) s = omega arith

run-IsConsistent :
    (ops : List Op) (s : Registry)
    → IsConsistent s
    → s.next_id + length ops < 2 ^ 16
    → IsConsistent (run ops s)
unfolding run
run-IsConsistent [] s c h = c
run-IsConsistent (op ∷ ops) s c h =
    run-IsConsistent ops (step op s) (step-IsConsistent op s c (omega arith))
      (omega (arith, next_id-step op s))

pub empty-IsConsistent : IsConsistent empty
empty-IsConsistent = record {
  distinct = none_distinct 16;
  assigned = none_assigned 128;
  mapped = none_mapped 256;
  below = none_below 16;
  domain_slots = refl;
  assign_slots = refl;
  mapping_slots = refl;
}
  where
    none_distinct : (n : ℕ) → Distinct (replicate n (record { id = 0; used = false }))
    none_distinct zero = tt
    none_distinct (suc n) = ((λ u. absurd cc), none_distinct n)

    none_below : (n : ℕ) → All (Below 1) (replicate n (record { id = 0; used = false }))
    none_below zero = tt
    none_below (suc n) = ((λ u. absurd cc), none_below n)

    none_assigned :
        (n : ℕ)
        → All
            (Assigned empty.domains)
            (replicate n (record { used = false; seg = 0; bus = 0; dev = 0; func = 0; domid = 0 }))
    none_assigned zero = tt
    none_assigned (suc n) = ((λ u. absurd cc), none_assigned n)

    none_mapped :
        (n : ℕ)
        → All (Mapped empty.domains) (
            replicate n (record {
              used = false;
              domid = 0;
              iova = 0;
              pa = 0;
              len = 0;
              perm_r = false;
              perm_w = false;
              perm_x = false;
            }))
    none_mapped zero = tt
    none_mapped (suc n) = ((λ u. absurd cc), none_mapped n)

-- The registry is consistent after any sequence of fewer than 65535 operations from the empty one.
pub run_empty-IsConsistent :
    (ops : List Op) → length ops + 1 < 2 ^ 16 → IsConsistent (run ops empty)
run_empty-IsConsistent ops h = run-IsConsistent ops empty empty-IsConsistent (omega arith)
