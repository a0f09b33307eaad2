-- ===== src/Iommu/Tests.antt =====
-- Runs of src/iommu/state.rs at concrete inputs.
use zerovisor.Base.{ℕ, ◌≡◌, refl, true, false, List, [], ◌∷◌, some, arith, All}
use zerovisor.Iommu.State.{
  Bdf, Registry, empty, create_domain, domain_exists, destroy_domain, assign_device,
  find_domain_for_bdf, assigned_to, mapped_to,
}
use zerovisor.Iommu.State.Consistent.{IsConsistent}
use zerovisor.Iommu.State.Steps.{
  destroy, Op, create, assign, map_range, step, run, empty-IsConsistent, run_empty-IsConsistent,
}
use zerovisor.Migrate.Codec.{le_u16}
use zerovisor.Iommu.State.{list_assignments}
use zerovisor.Iommu.Saved.{cfg_save, cfg_load}
use zerovisor.Iommu.Saved.Loaded.{cfg_load-IsConsistent}
use zerovisor.Iommu.Saved.Numbers.{firsts, place}
use zerovisor.Iommu.Saved.Few.{domids}
use zerovisor.Iommu.Saved.Restored.{renumbered, cfg_load-renumbered}
use zerovisor.Iommu.State.Effects.{create_domain-fresh, destroy_domain-forgets, assign_device-find}

abbrev nic : Bdf
nic = record { seg = 0; bus = 2; dev = 3; func = 0 }

abbrev setup : List Op
setup = create ∷ create ∷ assign nic 1 ∷ map_range 1 0x1000 0x2000 0x1000 true true false ∷ []

abbrev ready : Registry
ready = run setup empty

run_empty-IsConsistent_example : IsConsistent ready
run_empty-IsConsistent_example = run_empty-IsConsistent setup (omega arith)

ready-IsConsistent : IsConsistent ready
ready-IsConsistent = run_empty-IsConsistent setup (omega arith)

create_domain-fresh_example :
    (domain_exists 1 empty ≡ false) × (domain_exists 1 (create_domain empty).0 ≡ true)
unfolding create_domain
create_domain-fresh_example = create_domain-fresh empty 1 empty-IsConsistent refl

destroy_domain-forgets_example :
    let (s, ok) = destroy_domain 1 ready in
    (ok ≡ true)
    × (domain_exists 1 s ≡ false)
    × All (λ a. assigned_to 1 a ≡ false) s.assigns
    × All (λ m. mapped_to 1 m ≡ false) s.mappings
    × (domain_exists 2 s ≡ domain_exists 2 ready)
unfolding run step create_domain assign_device domain_exists
destroy_domain-forgets_example = destroy_domain-forgets 1 2 ready ready-IsConsistent refl refl

abbrev one_domain : Registry
one_domain = run (create ∷ []) empty

assign_device-find_example : find_domain_for_bdf nic (assign_device nic 1 one_domain).0 ≡ some 1
unfolding run step create_domain assign_device domain_exists find_domain_for_bdf
assign_device-find_example = assign_device-find nic 1 one_domain refl refl

-- The first domain is destroyed, and the two others have devices.
abbrev disk : Bdf
disk = record { seg = 0; bus = 4; dev = 0; func = 1 }

abbrev sound : Bdf
sound = record { seg = 0; bus = 5; dev = 0; func = 0 }

abbrev after_changes : List Op
after_changes =
    create ∷ create ∷ create ∷ destroy 1 ∷ assign nic 3 ∷ assign disk 2 ∷ assign sound 3 ∷ []

abbrev changed : Registry
changed = run after_changes empty

changed-IsConsistent : IsConsistent changed
changed-IsConsistent = run_empty-IsConsistent after_changes (omega arith)

cfg_load-renumbered_example :
    list_assignments (cfg_load (some (cfg_save changed)) empty).assigns
    ≡ renumbered
        (firsts [] (domids (list_assignments changed.assigns)))
        (list_assignments changed.assigns)
unfolding run step create_domain destroy_domain assign_device domain_exists list_assignments
cfg_load-renumbered_example = cfg_load-renumbered changed changed-IsConsistent (
  record { seg_fits = omega arith; domid_fits = omega arith },
  (
    record { seg_fits = omega arith; domid_fits = omega arith },
    (record { seg_fits = omega arith; domid_fits = omega arith }, tt),
  ),
)

-- The third domain comes first, and so it is the first that is created.
renumbered_changed :
    domids (
      renumbered
        (firsts [] (domids (list_assignments changed.assigns)))
        (list_assignments changed.assigns))
    ≡ 1 ∷ 2 ∷ 1 ∷ []
unfolding run step create_domain destroy_domain assign_device domain_exists list_assignments firsts
    place
renumbered_changed = refl

-- Two assignments are announced, and the second is cut off.
abbrev cut : List ℕ
cut = 2 ∷ 0 ∷ 0 ∷ 0 ∷ 2 ∷ 3 ∷ 0 ∷ 0 ∷ 7 ∷ 0 ∷ 0 ∷ 0 ∷ []

cfg_load-IsConsistent_example : IsConsistent (cfg_load (some cut) ready)
unfolding run step create_domain assign_device domain_exists le_u16
cfg_load-IsConsistent_example = cfg_load-IsConsistent cut ready ready-IsConsistent (omega arith)
