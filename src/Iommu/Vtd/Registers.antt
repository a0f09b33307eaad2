-- ===== src/Iommu/Vtd/Registers.antt =====
-- src/iommu/vtd.rs: the commands to the registers of the remapping units. The hardware is an argument:
-- what a read gives, and what a write and the delay between two polls make of it. Of what is printed
-- the result of each command is kept.
pub mod Polls
pub mod Targets
use zerovisor.Base.{
  ℕ, zero, suc, ◌+◌, Bool, true, false, not, ◌&&◌, List, [], ◌∷◌, ◌++◌, Option, none, some, ltb,
  ◌==◌, if◌then◌else◌, bit_and, bit_or, ◌<<◌, not32, length, any,
}
use zerovisor.Iommu.State.{Bdf, DevAssign}
use zerovisor.Iommu.Vtd.Units.{
  VtdUnit, Scope, Units, for_each_unit, find_unit_for_bdf, get_unit_by_index,
}
use zerovisor.Iommu.Vtd.Contexts.{bdf_of}

abbrev pub reg_gcmd : ℕ
reg_gcmd = 0x018

abbrev pub reg_gsts : ℕ
reg_gsts = 0x01C

abbrev pub reg_rtaddr : ℕ
reg_rtaddr = 0x020

abbrev pub reg_fsts : ℕ
reg_fsts = 0x034

abbrev pub gcmd_srtp : ℕ
gcmd_srtp = 1 << 30

abbrev pub gcmd_te : ℕ
gcmd_te = 1 << 31

abbrev pub gsts_rtps : ℕ
gsts_rtps = 1 << 30

abbrev pub gsts_tes : ℕ
gsts_tes = 1 << 31

pub record Hardware : Type 1 where
  pub Device : Type 0
  pub read : ℕ → Device → ℕ
  pub write : ℕ → ℕ → Device → Device
  pub stall : Device → Device

-- The devices of `invalidate_domain`: the registers and the segment of each unit once, eight at most.
abbrev pub add_target : Option VtdUnit → List VtdUnit → List VtdUnit
add_target none found = found
add_target (some u) found =
    if not (any (λ t. t.reg_base == u.reg_base) found) && ltb (length found) 8
    then found ++ (u ∷ [])
    else found

unfoldable pub targets :
    List Scope → Units → (domid : ℕ) → List DevAssign → List VtdUnit → List VtdUnit
unfolding find_unit_for_bdf
targets scopes units domid [] found = found
targets scopes units domid (a ∷ rest) found = targets scopes units domid rest (
    if a.domid == domid
    then add_target (find_unit_for_bdf scopes (bdf_of a) units) found
    else found)

abbrev pub is_set : ℕ → ℕ → Bool
is_set bit s = not (bit_and s bit == 0)

module _ (hw : Hardware) where
  open hw use {Device, read, write, stall}

  -- `while tries < n { if test(status) { ok = true; break; } tries += 1; stall(100); }`
  unfoldable pub poll : ℕ → (ℕ → Bool) → (gsts : ℕ) → Device → Bool × Device
  poll zero test gsts d = (false, d)
  poll (suc n) test gsts d =
      let rest = poll n test gsts (stall d) in if test (read gsts d) then (true, d) else rest

  -- `srtp_one_unit`, and the same commands in `invalidate_all`.
  unfoldable pub srtp_one_unit : (reg_base : ℕ) → Device → Bool × Device
  srtp_one_unit reg_base d =
      let d1 = write (reg_base + reg_rtaddr) (read (reg_base + reg_rtaddr) d) d in
      let d2 = write (reg_base + reg_gcmd) (bit_or (read (reg_base + reg_gcmd) d1) gcmd_srtp) d1 in
      poll 5000 (is_set gsts_rtps) (reg_base + reg_gsts) d2

  -- The result of each unit in turn.
  unfoldable pub srtp_units : List VtdUnit → Device → List Bool × Device
  srtp_units [] d = ([], d)
  srtp_units (u ∷ us) d =
      let (done, d1) = srtp_one_unit u.reg_base d in
      let (results, d2) = srtp_units us d1 in (done ∷ results, d2)

  unfoldable pub invalidate_all : Units → Device → List Bool × Device
  unfolding srtp_units for_each_unit
  invalidate_all units d = srtp_units (for_each_unit units) d

  unfoldable pub invalidate_domain :
      List Scope → Units → List DevAssign → (domid : ℕ) → Device → List Bool × Device
  unfolding srtp_units targets
  invalidate_domain scopes units assigns domid d =
      srtp_units (targets scopes units domid assigns []) d

  abbrev pub as_list : Option VtdUnit → List VtdUnit
  as_list none = []
  as_list (some u) = u ∷ []

  unfoldable pub invalidate_bdf : List Scope → Units → Bdf → Device → List Bool × Device
  unfolding srtp_units find_unit_for_bdf
  invalidate_bdf scopes units b d = srtp_units (as_list (find_unit_for_bdf scopes b units)) d

  -- The command to switch translation, and its poll.
  unfoldable pub switch_te : (reg_base : ℕ) → Bool → Device → Bool × Device
  switch_te reg_base on d =
      let cur = read (reg_base + reg_gcmd) d in
      let d1 =
        write (reg_base + reg_gcmd) (if on then bit_or cur gcmd_te else bit_and cur (not32 gcmd_te))
          d in
      poll 5000 (λ s. if on then is_set gsts_tes s else not (is_set gsts_tes s))
        (reg_base + reg_gsts) d1

  abbrev pub at_unit : Bool → Device → Option VtdUnit → List Bool × Device
  at_unit on d none = ([], d)
  at_unit on d (some u) = let (done, d1) = switch_te u.reg_base on d in (done ∷ [], d1)

  unfoldable pub set_te_for_unit : Units → (index : ℕ) → Bool → Device → List Bool × Device
  unfolding get_unit_by_index
  set_te_for_unit units index on d = at_unit on d (get_unit_by_index index units)

  -- One unit of `enable_translation_all` and `disable_translation_all`: none is passed over when it
  -- is in that state already.
  unfoldable pub bring_to : (reg_base : ℕ) → Bool → Device → Option Bool × Device
  bring_to reg_base on d =
      let now = is_set gsts_tes (read (reg_base + reg_gsts) d) in
      let (done, d1) = switch_te reg_base on d in
      if (if on then now else not now) then (none, d) else (some done, d1)

  -- Over the registers that the walk over the DMAR table gives.
  unfoldable pub bring_all_to : List ℕ → Bool → Device → List (Option Bool) × Device
  unfolding bring_to
  bring_all_to [] on d = ([], d)
  bring_all_to (reg_base ∷ rest) on d =
      let (done, d1) = bring_to reg_base on d in
      let (results, d2) = bring_all_to rest on d1 in (done ∷ results, d2)

  -- One unit of `hard_invalidate_all`: translation is switched off where it is on, and then on.
  unfoldable pub hard_invalidate : (reg_base : ℕ) → Device → List Bool × Device
  hard_invalidate reg_base d =
      let (off, d1) = switch_te reg_base false d in
      let (on, d2) = switch_te reg_base true d1 in
      let (only_on, d3) = switch_te reg_base true d in
      if is_set gsts_tes (read (reg_base + reg_gsts) d)
      then (off ∷ on ∷ [], d2)
      else (only_on ∷ [], d3)

  unfoldable pub hard_invalidate_all : List VtdUnit → Device → List Bool × Device
  unfolding hard_invalidate
  hard_invalidate_all [] d = ([], d)
  hard_invalidate_all (u ∷ us) d =
      let (done, d1) = hard_invalidate u.reg_base d in
      let (results, d2) = hard_invalidate_all us d1 in (done ++ results, d2)

  -- The status is written back as it was read.
  unfoldable pub clear_faults : List VtdUnit → Device → Device
  clear_faults [] d = d
  clear_faults (u ∷ us) d =
      clear_faults us (write (u.reg_base + reg_fsts) (read (u.reg_base + reg_fsts) d) d)

  -- `maybe_refresh_after_updates`
  unfoldable pub refresh : Units → Device → List Bool × Device
  unfolding invalidate_all for_each_unit
  refresh units d =
      let needs =
        any (λ u. is_set gsts_tes (read (u.reg_base + reg_gsts) d)) (for_each_unit units) in
      if needs then invalidate_all units d else ([], d)
