-- ===== src/Iommu/Vtd/Units.antt =====
-- src/iommu/vtd.rs: the table of remapping units, and the unit that a device belongs to. The device
-- scopes of the DMAR table are an argument: the calls of `dmar_for_each_device_scope_from`.
use zerovisor.Base.{
  ℕ, suc, Bool, true, false, ◌&&◌, ◌||◌, List, [], ◌∷◌, Option, none, some, ◌==◌, if◌then◌else◌,
  replicate, replace_first, find,
}
pub use zerovisor.Firmware.Acpi.Dmar.{Scope}
use zerovisor.Iommu.State.{Bdf}

pub record VtdUnit : Type 0 where
  pub seg : ℕ
  pub reg_base : ℕ
  pub root_tbl : ℕ

abbrev pub Units : Type 0
Units = List (Option VtdUnit)

-- `VTD_UNITS`
abbrev pub no_units : Units
no_units = replicate 8 none

abbrev pub is_none : Option VtdUnit → Bool
is_none none = true
is_none (some u) = false

unfoldable pub register_unit : VtdUnit → Units → Units
register_unit u arr = replace_first is_none (λ _. some u) arr

-- The units that `for_each_unit` calls its closure with.
unfoldable pub for_each_unit : Units → List VtdUnit
for_each_unit [] = []
for_each_unit (none ∷ rest) = for_each_unit rest
for_each_unit (some u ∷ rest) = u ∷ for_each_unit rest

-- The loop of `get_unit_by_index` with the counter at `i`.
unfoldable pub unit_from : Units → (index i : ℕ) → Option VtdUnit
unit_from [] index i = none
unit_from (none ∷ rest) index i = unit_from rest index i
unit_from (some u ∷ rest) index i = if i == index then some u else unit_from rest index (suc i)

unfoldable pub get_unit_by_index : ℕ → Units → Option VtdUnit
unfolding unit_from
get_unit_by_index index arr = unit_from arr index 0

abbrev pub owns : Bdf → Scope → Bool
owns b s = s.seg == b.seg && s.bus == b.bus && s.dev == b.dev && s.func == b.func

-- The registers of the first scope that names the device, or 0.
abbrev pub reg_of : Option Scope → ℕ
reg_of none = 0
reg_of (some s) = s.reg

abbrev pub serves : ℕ → ℕ → VtdUnit → Bool
serves seg reg u = u.seg == seg && (reg == 0 || u.reg_base == reg)

unfoldable pub find_unit_for_bdf : List Scope → Bdf → Units → Option VtdUnit
unfolding for_each_unit
find_unit_for_bdf scopes b arr =
    find (serves b.seg (reg_of (find (owns b) scopes))) (for_each_unit arr)
