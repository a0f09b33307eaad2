-- ===== src/Iommu/Vtd/Contexts/Apply.antt =====
-- `apply_assignments` and `get_cr3_for_bdf` of src/iommu/vtd.rs: what a device finds after its
-- assignment has been programmed.
use zerovisor.Base.{
  ℕ, ◌%◌, ◌^◌, ◌<◌, ◌≡◌, ◌≢◌, ◌↔◌, refl, ap, ◌∙◌, sym, false, List, [], ◌∷◌, Option, none, some,
  arith, bit_and, bit_or, ◌==◌, ◌<<◌, if◌then◌else◌, get_or, set, length, get_or-set_self,
}
use zerovisor.Bits.Fields.{bit_and_mask}
use zerovisor.Mm.Paging.{build_identity_2m}
use zerovisor.Mm.Memory.{put, Memory}
use zerovisor.Iommu.State.{DevAssign}
use zerovisor.Iommu.Vtd.Units.{VtdUnit, Scope, find_unit_for_bdf}
use zerovisor.Iommu.Vtd.Tables.{frame_mask}
use zerovisor.Iommu.Vtd.Contexts.{
  Vtd, ensure_domain_slptptr, ensured, provisioned, program, apply_assignments, bdf_of,
  get_cr3_for_bdf, verify_state, entry_lower, entry_upper, root_lower, ctx_lower, ctx_upper,
  ctx_present,
}
use zerovisor.Iommu.Vtd.Contexts.Entry.{kept, lower_fields, entry_matches-entry}

-- The context table of a bus, and the index of a device in it.
abbrev pub context_of : Vtd → VtdUnit → ℕ → ℕ
context_of v u bus = bit_and (v.memory.words (root_lower u bus)) frame_mask

abbrev pub slot_of : DevAssign → ℕ
slot_of a = bit_or (a.dev << 3) a.func

some_inj : {x y : ℕ} → some x ≡ some y → x ≡ y
some_inj h = cc

module _ (scopes : List Scope) (a : DevAssign) (v : Vtd) (u : VtdUnit) (p : ℕ)
    (found : find_unit_for_bdf scopes (bdf_of a) v.units ≡ some u)
    (tables : get_or v.slptptr (bit_and a.domid 0xF) none ≡ some p)
    (bus_present : v.memory.words (root_lower u a.bus) % 2 ≡ 1)
    (context_there : context_of v u a.bus ≢ 0)
    (apart : root_lower u a.bus ≢ ctx_lower (context_of v u a.bus) (slot_of a))
    (apart' : root_lower u a.bus ≢ ctx_upper (context_of v u a.bus) (slot_of a)) where
  abbrev ctx : ℕ
  ctx = context_of v u a.bus

  abbrev applied : Memory
  applied =
      put (ctx_upper ctx (slot_of a)) (entry_upper a.domid)
        (put (ctx_lower ctx (slot_of a)) (entry_lower (some p)) v.memory)

  root_there : bit_and (v.memory.words (root_lower u a.bus)) ctx_present ≡ 1
  root_there = bit_and_mask 1 (v.memory.words (root_lower u a.bus)) ∙ bus_present

  program-eq : program u a v ≡ record v { memory = applied }
  unfolding program ensure_domain_slptptr
  program-eq = let there : (ctx == 0) ≡ false = ground arith in rw (tables, root_there, there) refl

  applied-eq : apply_assignments scopes (a ∷ []) v ≡ record v { memory = applied }
  unfolding apply_assignments
  applied-eq = rw found program-eq

  root_kept : applied.words (root_lower u a.bus) ≡ v.memory.words (root_lower u a.bus)
  root_kept = ground arith

  lower_is : applied.words (ctx_lower ctx (slot_of a)) ≡ entry_lower (some p)
  lower_is = ground arith

  upper_is : applied.words (ctx_upper ctx (slot_of a)) ≡ entry_upper a.domid
  upper_is = ground arith

  -- After its assignment is applied, a device has the top table of its domain without the bits that
  -- the mask drops: with a page below 2^60 just when the page is a multiple of 64 KiB.
  pub get_cr3_for_bdf-apply_assignments :
      let v' = apply_assignments scopes (a ∷ []) v in
      (get_cr3_for_bdf scopes (bdf_of a) v' ≡ some (kept p))
      × (p < 2 ^ 60 → (get_cr3_for_bdf scopes (bdf_of a) v' ≡ some p) ↔ (p % 2 ^ 16 ≡ 0))
  unfolding get_cr3_for_bdf
  get_cr3_for_bdf-apply_assignments =
      let fields = lower_fields p in
      let found_it : get_cr3_for_bdf scopes (bdf_of a) (apply_assignments scopes (a ∷ []) v)
          ≡ some (kept p) =
        rw (applied-eq, found, root_kept, root_there, lower_is, fields.1, fields.0) refl in
      (
        found_it,
        λ small. (
          λ same. (let e : kept p ≡ p = some_inj (sym found_it ∙ same) in omega arith),
          λ whole. found_it ∙ ap some (omega arith),
        ),
      )

  -- `verify_state` then has no issue with it, unless the mask leaves nothing of the pointer.
  pub verify_state-apply_assignments :
      a.domid < 2 ^ 16
      → verify_state scopes (a ∷ []) (apply_assignments scopes (a ∷ []) v)
        ≡ (if kept p == 0 then 1 else 0)
  unfolding verify_state
  verify_state-apply_assignments small =
      let there : (ctx == 0) ≡ false = ground arith in
      let same = entry_matches-entry p a.domid small in
      rw (applied-eq, found, root_kept, root_there, there, lower_is, upper_is, same) (ground arith)

provisioned-known :
    (idx p : ℕ) (v v' : Vtd) (built : Option (ℕ × Memory))
    → idx < length v.slptptr
    → provisioned idx v built ≡ (some p, v')
    → get_or v'.slptptr idx none ≡ some p
provisioned-known idx p v v' none h e = cc
provisioned-known idx p v v' (some (cr3, m)) h e =
    let q : ℕ = bit_and cr3 frame_mask in
    let q_is : some (bit_and cr3 frame_mask) ≡ some p = cc in
    let list_is : set v.slptptr idx (some (bit_and cr3 frame_mask)) ≡ v'.slptptr =
      ap (λ r. r.slptptr) (ap (λ (r : Option ℕ × Vtd). r.1) e) in
    ap (λ l. get_or l idx none) (sym list_is)
    ∙ get_or-set_self v.slptptr idx (some (bit_and cr3 frame_mask)) none h
    ∙ q_is

ensured-known :
    (idx p : ℕ) (v v' : Vtd) (o : Option ℕ)
    → get_or v.slptptr idx none ≡ o
    → idx < length v.slptptr
    → ensured idx v o ≡ (some p, v')
    → get_or v'.slptptr idx none ≡ some p
ensured-known idx p v v' none k h e =
    provisioned-known idx p v v' (build_identity_2m (1 << 30) v.memory) h e
ensured-known idx p v v' (some q) k h e =
    let q_is : some q ≡ some p = cc in
    ap (λ r. get_or r.slptptr idx none) (sym (ap (λ (r : Option ℕ × Vtd). r.1) e)) ∙ k ∙ q_is

-- Two domains whose identifiers agree modulo 16 have the same tables: once the first has them, the
-- second is given those, and nothing is built.
pub ensure_domain_slptptr-shared :
    (d d' p : ℕ) (v v' : Vtd)
    → length v.slptptr ≡ 16
    → d % 16 ≡ d' % 16
    → ensure_domain_slptptr d v ≡ (some p, v')
    → ensure_domain_slptptr d' v' ≡ (some p, v')
unfolding ensure_domain_slptptr
ensure_domain_slptptr-shared d d' p v v' h same e =
    let a : bit_and d 0xF ≡ d % 16 = bit_and_mask 4 d in
    let b : bit_and d' 0xF ≡ d % 16 = bit_and_mask 4 d' ∙ sym same in
    let known =
      ensured-known (bit_and d 0xF) p v v' (get_or v.slptptr (bit_and d 0xF) none) refl
        (omega (arith, a)) e in
    rw (b, ← a, known) refl
