-- ===== src/Iommu/Vtd/Registers/Targets.antt =====
-- The units that `invalidate_domain` of src/iommu/vtd.rs commands: each once, and all that serve a
-- device of the domain.
use zerovisor.Base.{
  ℕ, ◌≤◌, ◌≡◌, refl, ◌∙◌, sym, Bool, true, false, not, ◌&&◌, List, [], ◌∷◌, ◌++◌, Option, none,
  some, arith, any, length, ltb, ◌==◌, if◌then◌else◌, Bool-cases, inl, inr, length-append, All, ◌⊎◌,
}
use zerovisor.Iommu.State.{DevAssign}
use zerovisor.Iommu.Vtd.Units.{VtdUnit, Scope, Units, find_unit_for_bdf}
use zerovisor.Iommu.Vtd.Contexts.{bdf_of}
use zerovisor.Iommu.Vtd.Registers.{targets, add_target}

abbrev pub targets? : VtdUnit → List VtdUnit → Bool
targets? u found = any (λ t. t.reg_base == u.reg_base) found

-- No two units of a list have the same registers.
abbrev pub Distinct : List VtdUnit → Type 0
Distinct [] = Unit {0}
Distinct (u ∷ us) = (targets? u us ≡ false) × Distinct us

targets?-append :
    (u w : VtdUnit) (us : List VtdUnit)
    → targets? u (us ++ (w ∷ []))
      ≡ (if targets? u us then true else if w.reg_base == u.reg_base then true else false)
targets?-append u w [] = refl
targets?-append u w (t ∷ us) = elim (Bool-cases (t.reg_base == u.reg_base)) [
  | inl e ↦ rw e refl
  | inr e ↦ rw e (targets?-append u w us)
]

Distinct-append :
    (w : VtdUnit) (us : List VtdUnit)
    → targets? w us ≡ false
    → Distinct us
    → Distinct (us ++ (w ∷ []))
Distinct-append w [] h d = (refl, tt)
Distinct-append w (t ∷ us) h d =
    let apart : (t.reg_base == w.reg_base) ≡ false = ground arith in
    let apart' : (w.reg_base == t.reg_base) ≡ false = ground arith in
    let rest : targets? w us ≡ false = sym (rw apart refl) ∙ h in
    (rw (targets?-append t w us, d.0, apart') refl, Distinct-append w us rest d.1)

add_target-Distinct :
    (o : Option VtdUnit) (found : List VtdUnit) → Distinct found → Distinct (add_target o found)
add_target-Distinct none found d = d
add_target-Distinct (some u) found d = elim (Bool-cases (targets? u found)) [
  | inl e ↦ rw e d
  | inr e ↦ elim (Bool-cases (ltb (length found) 8)) [
    | inl f ↦ rw (e, f) (Distinct-append u found e d)
    | inr f ↦ rw (e, f) d
  ]
]

module _ (scopes : List Scope) (units : Units) (domid : ℕ) where
  abbrev next : DevAssign → List VtdUnit → List VtdUnit
  next a found =
      if a.domid == domid
      then add_target (find_unit_for_bdf scopes (bdf_of a) units) found
      else found

  targets_from-Distinct :
      (assigns : List DevAssign) (found : List VtdUnit)
      → Distinct found
      → Distinct (targets scopes units domid assigns found)
  unfolding targets
  targets_from-Distinct [] found d = d
  targets_from-Distinct (a ∷ rest) found d =
      targets_from-Distinct rest _ (elim (Bool-cases (a.domid == domid)) [
        | inl e ↦ rw e (add_target-Distinct (find_unit_for_bdf scopes (bdf_of a) units) found d)
        | inr e ↦ rw e d
      ])

  -- A unit that is found stays, and so does a full list.
  abbrev pub Has : VtdUnit → List VtdUnit → Type 0
  Has u found = (targets? u found ≡ true) ⊎ (8 ≤ length found)

  append-Has : (u w : VtdUnit) (found : List VtdUnit) → Has u found → Has u (found ++ (w ∷ []))
  append-Has u w found (inl h) = inl (targets?-append u w found ∙ rw h refl)
  append-Has u w found (inr h) = inr (omega (arith, length-append found (w ∷ [])))

  add_target-Has :
      (u : VtdUnit) (o : Option VtdUnit) (found : List VtdUnit)
      → Has u found
      → Has u (add_target o found)
  add_target-Has u none found h = h
  add_target-Has u (some w) found h =
      elim (Bool-cases (not (targets? w found) && ltb (length found) 8)) [
        | inl e ↦ rw e (append-Has u w found h)
        | inr e ↦ rw e h
      ]

  next-Has :
      (u : VtdUnit) (a : DevAssign) (found : List VtdUnit) → Has u found → Has u (next a found)
  next-Has u a found h = elim (Bool-cases (a.domid == domid)) [
    | inl e ↦ rw e (add_target-Has u (find_unit_for_bdf scopes (bdf_of a) units) found h)
    | inr e ↦ rw e h
  ]

  targets-Has :
      (u : VtdUnit) (assigns : List DevAssign) (found : List VtdUnit)
      → Has u found
      → Has u (targets scopes units domid assigns found)
  unfolding targets
  targets-Has u [] found h = h
  targets-Has u (a ∷ rest) found h = targets-Has u rest (next a found) (next-Has u a found h)

  add_target-adds : (u : VtdUnit) (found : List VtdUnit) → Has u (add_target (some u) found)
  add_target-adds u found = elim (Bool-cases (targets? u found)) [
    | inl e ↦ rw e (inl e)
    | inr e ↦ elim (Bool-cases (ltb (length found) 8)) [
      | inl f ↦
          let self : (u.reg_base == u.reg_base) ≡ true = ground arith in
          rw (e, f) (inl (targets?-append u u found ∙ rw (e, self) refl))
      | inr f ↦ rw (e, f) (inr (ground arith))
    ]
  ]

  -- The unit of an assignment of the domain.
  abbrev pub Covered : List VtdUnit → DevAssign → Type 0
  Covered found a =
      (u : VtdUnit)
      → a.domid ≡ domid
      → find_unit_for_bdf scopes (bdf_of a) units ≡ some u
      → Has u found

  targets_from-Covered :
      (assigns : List DevAssign) (found : List VtdUnit)
      → All (Covered (targets scopes units domid assigns found)) assigns
  unfolding targets
  targets_from-Covered [] found = tt
  targets_from-Covered (a ∷ rest) found = (
    λ u e f.
        let same : (a.domid == domid) ≡ true = ground arith in
        targets-Has u rest (next a found) (rw (same, f) (add_target-adds u found)),
    targets_from-Covered rest (next a found),
  )

  -- `invalidate_domain` commands no unit twice, and every unit that serves a device of the domain,
  -- unless it has commanded eight.
  pub targets-Covered :
      (assigns : List DevAssign)
      → let found = targets scopes units domid assigns [] in
        Distinct found × All (Covered found) assigns
  targets-Covered assigns = (targets_from-Distinct assigns [] tt, targets_from-Covered assigns [])
