-- ===== src/Iommu/Vtd/Tests.antt =====
-- Runs of src/iommu/vtd.rs at concrete inputs.
use zerovisor.Base.{
  ℕ, ◌+◌, ◌-◌, ◌*◌, ◌%◌, ◌^◌, ◌<◌, ◌≡◌, ◌≢◌, ◌↔◌, All, set, refl, true, false, [], ◌∷◌, none, some,
  arith, if◌then◌else◌, ◌==◌,
}
use zerovisor.Mm.Memory.{Memory, word, put}
use zerovisor.Iommu.Vtd.Tables.{
  ensure_table_entry, map_page_2m, map_page_4k, map_range_4k, unmap_range_4k, walk_second_level,
  answer,
}
use zerovisor.Iommu.Vtd.Tables.Leaf.{leaf4}
use zerovisor.Iommu.Vtd.Tables.Update.{IsTree}
use zerovisor.Iommu.Vtd.Tables.Entry.{small_entry}
use zerovisor.Iommu.Vtd.Tables.Range.{map_range_4k-endless}
use zerovisor.Iommu.Vtd.Tables.Translate.{
  in_range, translation, map_range_4k-walk, unmap_range_4k-map_page_2m,
}
use zerovisor.Iommu.Vtd.Tables.Overwrite.{map_page_4k-map_page_2m}
use zerovisor.Iommu.State.{DevAssign, Mapping}
use zerovisor.Iommu.Vtd.Units.{VtdUnit, no_units, register_unit, find_unit_for_bdf}
use zerovisor.Iommu.Vtd.Contexts.{
  Vtd, no_domains, bdf_of, apply_assignments, get_cr3_for_bdf, ensure_domain_slptptr,
}
use zerovisor.Iommu.Vtd.Contexts.Apply.{
  get_cr3_for_bdf-apply_assignments, ensure_domain_slptptr-shared,
}
use zerovisor.Iommu.Vtd.Mappings.{apply_mappings, unmap_range, verify_mappings}
use zerovisor.Iommu.Vtd.Mappings.Applied.{
  verify_mappings-apply_mappings, unmap_range-apply_mappings,
}
use zerovisor.Iommu.Vtd.Registers.{Hardware, bring_to, targets}
use zerovisor.Iommu.Vtd.Registers.Polls.{translates, bring_to-translates}
use zerovisor.Iommu.Vtd.Registers.Targets.{Distinct, Covered, targets-Covered}

-- An empty top table at 0x1000 and eight pages.
abbrev fresh : Memory
fresh = record {
  words = λ _. 0;
  pages = 0x2000 ∷ 0x3000 ∷ 0x4000 ∷ 0x5000 ∷ 0x6000 ∷ 0x7000 ∷ 0x8000 ∷ 0x9000 ∷ [];
}

fresh-IsTree : IsTree 0x1000 fresh
fresh-IsTree = record {
  level = λ a. if a == 0x1000 then 4 else 0;
  pre = λ _. 0;
  tables = record {
    linked = λ t i h k present small. absurd (omega arith);
    aligned = λ t h. ground arith;
    fresh = omega arith;
  };
  root = refl;
  whole = refl;
}

map_range_4k-walk_example :
    (m' : Memory) × (map_range_4k 3 0x1000 0x400000 0x90000000 (4096 * 2) true false fresh
      ≡ some m')
    × ((y : ℕ)
        → y < 2 ^ 48
        → translation m'.words 0x1000 y ≡ (
            if in_range 0x400000 (4096 * 2) y
            then some (0x90000000 + (y - 0x400000) + 2 ^ 63)
            else translation fresh.words 0x1000 y))
unfolding leaf4
map_range_4k-walk_example =
    map_range_4k-walk 0x1000 0x400000 0x90000000 2 true false fresh fresh-IsTree (omega arith)
      (omega arith) (omega arith) (omega arith) (omega arith) (omega arith) (omega arith)
      (λ y f i. refl) 3 (omega arith)

walk_unmapped : translation fresh.words 0x1000 0x400000 ≡ none
unfolding walk_second_level answer
walk_unmapped = refl

unmap_range_4k-map_page_2m_example :
    (m' : Memory) × (unmap_range_4k 513 0x1000 0x400000
        (4096 * 512)
        (map_page_2m 0x1000 0x400000 0x90000000 true true fresh)
      ≡ some m')
    × (translation m'.words 0x1000 0x412345 ≡ some (0x90000000 + 0 + 0x12345))
unmap_range_4k-map_page_2m_example =
    unmap_range_4k-map_page_2m 0x1000 0x400000 0x90000000 0x400000 512 0x412345 513 true true fresh
      fresh-IsTree (omega arith) (omega arith) (omega arith) (omega arith) (omega arith)
      (omega arith) (omega arith) (omega arith) refl

map_page_4k-map_page_2m_example :
    let m1 = map_page_2m 0x1000 0x400000 0x90000000 true true fresh in
    map_page_4k 0x1000 0x412000 0xA0000000 true true m1
    ≡ put (word 0x90000000 0x12) (small_entry 0xA0000000 true true) m1
map_page_4k-map_page_2m_example =
    map_page_4k-map_page_2m 0x1000 0x400000 0x90000000 0x412000 0xA0000000 true true true fresh
      fresh-IsTree (omega arith) (omega arith) (omega arith) (omega arith) refl

map_range_4k-endless_example : map_range_4k 20 0x1000 0 0 (2 ^ 64 - 1) true true fresh ≡ none
map_range_4k-endless_example =
    map_range_4k-endless 20 0x1000 0 0 (2 ^ 64 - 1) true true fresh (omega arith) (omega arith)

-- A page mapped without execution: the walk gives its address with bit 63 set.
walk_no_execute :
    (walk_second_level
      (map_page_4k 0x1000 0x400000 0x90000000 true false fresh).words
      0x1000
      0x400123).0
    ≡ some (2 ^ 63 + 0x90000123)
unfolding map_page_4k ensure_table_entry walk_second_level answer
walk_no_execute = refl

-- A unit whose root table has a context table for bus 2, and a domain with its tables.
abbrev unit0 : VtdUnit
unit0 = record { seg = 0; reg_base = 0xFED90000; root_tbl = 0x10000 }

abbrev domain_root : ℕ
domain_root = 0x31000

abbrev with_unit : Vtd
with_unit = record {
  units = register_unit unit0 no_units;
  slptptr = set no_domains 1 (some domain_root);
  memory = put 0x10020 0x20001 (record { words = λ _. 0; pages = [] });
}

abbrev nic : DevAssign
nic = record { used = true; seg = 0; bus = 2; dev = 3; func = 0; domid = 1 }

get_cr3_for_bdf-apply_assignments_example :
    let v' = apply_assignments [] (nic ∷ []) with_unit in
    (get_cr3_for_bdf [] (bdf_of nic) v' ≡ some 0x30000)
    × (domain_root < 2 ^ 60
        → (get_cr3_for_bdf [] (bdf_of nic) v' ≡ some domain_root) ↔ (domain_root % 2 ^ 16 ≡ 0))
unfolding register_unit find_unit_for_bdf
get_cr3_for_bdf-apply_assignments_example =
    get_cr3_for_bdf-apply_assignments [] nic with_unit unit0 domain_root refl refl refl
      (omega arith) (omega arith) (omega arith)

ensure_domain_slptptr-shared_example :
    ensure_domain_slptptr 17 with_unit ≡ (some domain_root, with_unit)
unfolding ensure_domain_slptptr
ensure_domain_slptptr-shared_example =
    ensure_domain_slptptr-shared 1 17 domain_root with_unit with_unit refl refl refl

-- A domain with an empty top table.
abbrev with_tables : Vtd
with_tables = record { units = no_units; slptptr = set no_domains 1 (some 0x1000); memory = fresh }

abbrev two_pages : Mapping
two_pages = record {
  used = true;
  domid = 1;
  iova = 0x400000;
  pa = 0x90000000;
  len = 8192;
  perm_r = true;
  perm_w = true;
  perm_x = false;
}

verify_mappings-apply_mappings_example :
    (v' : Vtd) × (apply_mappings 3 (two_pages ∷ []) with_tables ≡ some v')
    × ((y : ℕ)
        → y < 2 ^ 48
        → translation v'.memory.words 0x1000 y ≡ (
            if in_range 0x400000 8192 y
            then some (0x90000000 + (y - 0x400000) + 2 ^ 63)
            else translation fresh.words 0x1000 y))
    × (verify_mappings (two_pages ∷ []) v' ≡ 0)
unfolding leaf4
verify_mappings-apply_mappings_example =
    verify_mappings-apply_mappings two_pages with_tables 0x1000 2 3 refl refl fresh-IsTree
      (omega arith) (omega arith) (omega arith) (omega arith) (omega arith) (omega arith)
      (omega arith) (λ y f i. refl) (omega arith) refl

unmap_range-apply_mappings_example :
    (v1 v2 : Vtd) × (apply_mappings 3 (two_pages ∷ []) with_tables ≡ some v1)
    × (unmap_range 3 1 0x400000 8192 v1 ≡ some v2)
    × ((y : ℕ)
        → y < 2 ^ 48
        → translation v2.memory.words 0x1000 y
          ≡ (if in_range 0x400000 8192 y then none else translation fresh.words 0x1000 y))
unfolding leaf4
unmap_range-apply_mappings_example =
    unmap_range-apply_mappings two_pages with_tables 0x1000 2 3 refl refl fresh-IsTree (omega arith)
      (omega arith) (omega arith) (omega arith) (omega arith) (omega arith) (omega arith)
      (λ y f i. refl) (omega arith) refl

-- A unit whose status shows the last command at once, and one that never answers.
abbrev obedient : Hardware
obedient = record { Device = ℕ; read = λ p d. d; write = λ p v d. v; stall = λ d. d }

abbrev dead : Hardware
dead = record { Device = ℕ; read = λ p d. 0; write = λ p v d. d; stall = λ d. d + 1 }

bring_to-translates_example :
    (translates obedient 0xFED90000 (bring_to obedient 0xFED90000 true 0).1 ≡ true)
    × ((bring_to obedient 0xFED90000 true 0).0 ≢ some false)
bring_to-translates_example = bring_to-translates obedient 0xFED90000 0 true 0 (omega arith) refl

targets-Covered_example :
    let found = targets [] (register_unit unit0 no_units) 1 (nic ∷ []) [] in
    Distinct found × All (Covered [] (register_unit unit0 no_units) 1 found) (nic ∷ [])
targets-Covered_example = targets-Covered [] (register_unit unit0 no_units) 1 (nic ∷ [])
