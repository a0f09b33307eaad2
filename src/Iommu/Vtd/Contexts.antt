-- ===== src/Iommu/Vtd/Contexts.antt =====
-- src/iommu/vtd.rs: the root and context tables of a unit, which lead from a device to the tables of
-- its domain, and the top tables of the domains.
pub mod Entry
pub mod Apply
use zerovisor.Base.{
  ℕ, zero, suc, ◌+◌, ◌*◌, Bool, true, false, not, ◌&&◌, ◌||◌, List, [], ◌∷◌, Option, none, some,
  ◌==◌, if◌then◌else◌, bit_and, bit_or, ◌<<◌, ◌>>◌, get_or, set, replicate,
}
use zerovisor.Mm.Memory.{Words, word, Memory, put, zeroed}
use zerovisor.Mm.Paging.{build_identity_2m}
use zerovisor.Iommu.State.{Bdf, DevAssign}
use zerovisor.Iommu.Vtd.Units.{VtdUnit, Scope, Units, for_each_unit, find_unit_for_bdf}
use zerovisor.Iommu.Vtd.Tables.{frame_mask}

abbrev pub ctx_present : ℕ
ctx_present = 1 << 0

abbrev pub ctx_fpd : ℕ
ctx_fpd = 1 << 1

abbrev pub ctx_tt_shift : ℕ
ctx_tt_shift = 2

abbrev pub ctx_tt_multi_level : ℕ
ctx_tt_multi_level = 1

-- `CTX_LO_PTR_MASK`, which the source writes with fifteen digits.
abbrev pub ctx_lo_ptr_mask : ℕ
ctx_lo_ptr_mask = 0xFFFFFFFFFFF0000

abbrev pub ctxu_aw_shift : ℕ
ctxu_aw_shift = 0

abbrev pub ctxu_did_shift : ℕ
ctxu_did_shift = 8

abbrev pub vtd_indices_from_bdf : Bdf → ℕ × ℕ
vtd_indices_from_bdf b = (b.bus, bit_or (b.dev << 3) b.func)

-- `VTD_UNITS`, `DOMAIN_SLPTPTR` and the memory that the tables are in.
pub record Vtd : Type 0 where
  pub units : Units
  pub slptptr : List (Option ℕ)
  pub memory : Memory

abbrev pub no_domains : List (Option ℕ)
no_domains = replicate 16 none

unfoldable pub get_domain_slptptr : ℕ → Vtd → Option ℕ
get_domain_slptptr domid v = get_or v.slptptr (bit_and domid 0xF) none

-- The tables of a domain that has none yet. What is written to pages before one is missing is lost
-- with the pages.
abbrev pub provisioned : ℕ → Vtd → Option (ℕ × Memory) → Option ℕ × Vtd
provisioned idx v none = (none, record v { memory = record v.memory { pages = [] } })
provisioned idx v (some (cr3, m)) =
    let p = bit_and cr3 frame_mask in
    (some p, record v { slptptr = set v.slptptr idx (some p); memory = m })

abbrev pub ensured : ℕ → Vtd → Option ℕ → Option ℕ × Vtd
ensured idx v (some p) = (some p, v)
ensured idx v none = provisioned idx v (build_identity_2m (1 << 30) v.memory)

unfoldable pub ensure_domain_slptptr : ℕ → Vtd → Option ℕ × Vtd
unfolding build_identity_2m
ensure_domain_slptptr domid v =
    let idx = bit_and domid 0xF in ensured idx v (get_or v.slptptr idx none)

-- The lower word of the root entry of a bus, and the words of a context entry.
abbrev pub root_lower : VtdUnit → ℕ → ℕ
root_lower u ri = word u.root_tbl (2 * ri)

abbrev pub ctx_lower : ℕ → ℕ → ℕ
ctx_lower ctx ci = word ctx (2 * ci)

abbrev pub ctx_upper : ℕ → ℕ → ℕ
ctx_upper ctx ci = word ctx (2 * ci + 1)

-- The words of the context entry of a domain with its top table.
abbrev pub entry_lower : Option ℕ → ℕ
entry_lower none = bit_or (bit_or ctx_present (ctx_tt_multi_level << ctx_tt_shift)) 0
entry_lower (some p) =
    bit_or (bit_or ctx_present (ctx_tt_multi_level << ctx_tt_shift)) (bit_and p ctx_lo_ptr_mask)

abbrev pub entry_upper : ℕ → ℕ
entry_upper domid = bit_or (2 << ctxu_aw_shift) (bit_and domid 0xFFFF << ctxu_did_shift)

abbrev pub bdf_of : DevAssign → Bdf
bdf_of a = record { seg = a.seg; bus = a.bus; dev = a.dev; func = a.func }

-- The context entry of one assignment, in the tables of its unit.
unfoldable pub program : VtdUnit → DevAssign → Vtd → Vtd
unfolding ensure_domain_slptptr
program u a v =
    let (ri, ci) = vtd_indices_from_bdf (bdf_of a) in
    let re_lo = v.memory.words (root_lower u ri) in
    let ctx = bit_and re_lo frame_mask in
    let (slpt, v') = ensure_domain_slptptr a.domid v in
    let m =
      put (ctx_upper ctx ci) (entry_upper a.domid)
        (put (ctx_lower ctx ci) (entry_lower slpt) v'.memory) in
    if bit_and re_lo ctx_present == 0 || ctx == 0 then v else record v' { memory = m }

abbrev pub apply_to : Option VtdUnit → DevAssign → Vtd → Vtd
apply_to none a v = v
apply_to (some u) a v = program u a v

-- The loop of `apply_assignments` over the assignments in use.
unfoldable pub apply_assignments : List Scope → List DevAssign → Vtd → Vtd
unfolding program find_unit_for_bdf
apply_assignments scopes [] v = v
apply_assignments scopes (a ∷ rest) v =
    apply_assignments scopes rest (apply_to (find_unit_for_bdf scopes (bdf_of a) v.units) a v)

-- The context pages of the buses from `bus` on are cleared, for `n` buses.
unfoldable pub clear_buses : ℕ → VtdUnit → (bus : ℕ) → Words → Words
clear_buses zero u bus mem = mem
clear_buses (suc n) u bus mem =
    let re_lo = mem (root_lower u bus) in
    let ctx = bit_and re_lo frame_mask in
    clear_buses n u (suc bus)
      (if not (bit_and re_lo ctx_present == 0) && not (ctx == 0) then zeroed ctx mem else mem)

unfoldable pub clear_units : List VtdUnit → Words → Words
unfolding clear_buses
clear_units [] mem = mem
clear_units (u ∷ us) mem = clear_units us (clear_buses 256 u 0 mem)

-- What `sync_contexts` does to the tables.
unfoldable pub sync_contexts : List Scope → List DevAssign → Vtd → Vtd
unfolding clear_units apply_assignments for_each_unit
sync_contexts scopes assigns v =
    let mem = clear_units (for_each_unit v.units) v.memory.words in
    apply_assignments scopes assigns
      (record v { memory = record { words = mem; pages = v.memory.pages } })

-- `get_cr3_for_bdf`
abbrev pub cr3_at : Words → Bdf → Option VtdUnit → Option ℕ
cr3_at mem b none = none
cr3_at mem b (some u) =
    let (ri, ci) = vtd_indices_from_bdf b in
    let re_lo = mem (root_lower u ri) in
    let ce_lo = mem (ctx_lower (bit_and re_lo frame_mask) ci) in
    if bit_and re_lo ctx_present == 0
    then none
    else if bit_and ce_lo ctx_present == 0
    then none
    else some (bit_and ce_lo ctx_lo_ptr_mask)

unfoldable pub get_cr3_for_bdf : List Scope → Bdf → Vtd → Option ℕ
unfolding find_unit_for_bdf
get_cr3_for_bdf scopes b v = cr3_at v.memory.words b (find_unit_for_bdf scopes b v.units)

-- Whether a context entry is that of a domain, as `verify_state` looks at it.
unfoldable pub entry_matches : (ce_lo ce_up domid : ℕ) → Bool
entry_matches ce_lo ce_up domid =
    not (bit_and ce_lo ctx_present == 0)
    && bit_and (ce_lo >> ctx_tt_shift) 0x3 == ctx_tt_multi_level
    && bit_and (ce_up >> ctxu_aw_shift) 0x7 == 2
    && bit_and (ce_up >> ctxu_did_shift) 0xFFFF == domid
    && not (bit_and ce_lo ctx_lo_ptr_mask == 0)

-- Whether `verify_state` counts an issue for an assignment.
abbrev pub has_issue : Words → DevAssign → Option VtdUnit → Bool
has_issue mem a none = false
has_issue mem a (some u) =
    let (ri, ci) = vtd_indices_from_bdf (bdf_of a) in
    let re_lo = mem (root_lower u ri) in
    let ctx = bit_and re_lo frame_mask in
    if bit_and re_lo ctx_present == 0 || ctx == 0
    then true
    else not (entry_matches (mem (ctx_lower ctx ci)) (mem (ctx_upper ctx ci)) a.domid)

unfoldable pub verify_state : List Scope → List DevAssign → Vtd → ℕ
unfolding find_unit_for_bdf entry_matches
verify_state scopes [] v = 0
verify_state scopes (a ∷ rest) v =
    let issues = verify_state scopes rest v in
    if has_issue v.memory.words a (find_unit_for_bdf scopes (bdf_of a) v.units)
    then suc issues
    else issues
