-- ===== src/Iommu/State/Consistent.antt =====
-- Every assignment and mapping of the registry refers to a domain that exists, and the identifiers
-- of the domains are different: each operation preserves this.
use zerovisor.Base.{
  ℕ, ◌+◌, ◌%◌, ◌^◌, ◌≤◌, ◌<◌, ◌≡◌, refl, ◌∙◌, Bool, true, false, ◌&&◌, not, List, [], ◌∷◌, arith,
  ◌==◌, if◌then◌else◌, any, replace_first, All, All-map, All-replace_first, All-replace_all,
  any-replace_first_keeps, any-replace_first_none, Bool-cases, inl, inr, length,
  length-replace_first, length-replace_all,
}
use zerovisor.Iommu.State.{
  Domain, DevAssign, Mapping, Bdf, Registry, is_domain, is_device, assigned_to, mapped_to, freed,
  unmapped, create_domain, domain_exists, assign_device, destroy_domain, unassign_device,
}

-- The identifiers in use are pairwise different.
abbrev pub Distinct : List Domain → Type 0
Distinct [] = Unit {0}
Distinct (d ∷ ds) = (d.used ≡ true → any (is_domain d.id) ds ≡ false) × Distinct ds

abbrev pub Assigned : List Domain → DevAssign → Type 0
Assigned ds a = a.used ≡ true → any (is_domain a.domid) ds ≡ true

abbrev pub Mapped : List Domain → Mapping → Type 0
Mapped ds m = m.used ≡ true → any (is_domain m.domid) ds ≡ true

abbrev pub Below : ℕ → Domain → Type 0
Below n d = d.used ≡ true → d.id < n

pub record IsConsistent (s : Registry) : Type 0 where
  pub distinct : Distinct s.domains
  pub assigned : All (Assigned s.domains) s.assigns
  pub mapped : All (Mapped s.domains) s.mappings
  pub below : All (Below s.next_id) s.domains
  pub domain_slots : length s.domains ≡ 16
  pub assign_slots : length s.assigns ≡ 128
  pub mapping_slots : length s.mappings ≡ 256

abbrev pub free : Domain → Bool
free d = not d.used

abbrev pub taken : ℕ → Domain → Domain
taken id d = record { id = id; used = true }

abbrev pub cleared : Domain → Domain
cleared d = record d { used = false }

-- An identifier that is not below the next one is in no use.
pub fresh : (n k : ℕ) (ds : List Domain) → All (Below n) ds → n ≤ k → any (is_domain k) ds ≡ false
fresh n k [] a h = refl
fresh n k (d ∷ ds) a h = ground (arith, fresh n k ds a.1 h, a.0)

Distinct-create :
    (id : ℕ) (ds : List Domain)
    → any (is_domain id) ds ≡ false
    → Distinct ds
    → Distinct (replace_first free (taken id) ds)
Distinct-create id [] e u = tt
Distinct-create id (d ∷ ds) e u = elim (Bool-cases d.used) [
  | inl t ↦
      let other : (id == d.id) ≡ false = ground (arith, t, e) in
      let later : any (is_domain id) ds ≡ false = ground (arith, t, e) in
      rw t (
        (λ k. any-replace_first_none (is_domain d.id) free (taken id) ds (λ x. other) (u.0 t)),
        Distinct-create id ds later u.1,
      )
  | inr t ↦
      (let later : any (is_domain id) ds ≡ false = ground (arith, t, e) in rw t ((λ k. later), u.1))
]

Distinct-destroy :
    (id : ℕ) (ds : List Domain) → Distinct ds → Distinct (replace_first (is_domain id) cleared ds)
Distinct-destroy id [] u = tt
Distinct-destroy id (d ∷ ds) u = elim (Bool-cases (is_domain id d)) [
  | inl t ↦ rw t ((λ k. absurd cc), u.1)
  | inr t ↦ rw t (
    (λ k. any-replace_first_none (is_domain d.id) (is_domain id) cleared ds (λ x. refl) (u.0 k)),
    Distinct-destroy id ds u.1,
  )
]

-- After its first slot is cleared, a domain is gone.
pub gone :
    (id : ℕ) (ds : List Domain)
    → Distinct ds
    → any (is_domain id) (replace_first (is_domain id) cleared ds) ≡ false
gone id [] u = refl
gone id (d ∷ ds) u = elim (Bool-cases (is_domain id d)) [
  | inl t ↦ rw t (one t)
  | inr t ↦ (let e = gone id ds u.1 in ground (arith, t, e))
]
  where
    one : is_domain id d ≡ true → any (is_domain id) ds ≡ false
    one t =
        let on : d.used ≡ true = ground (arith, t) in
        let same : d.id ≡ id = ground (arith, t) in rw same at (u.0 on)

-- What holds after both branches of a test holds after it.
pub branches :
    {B : Type 0} (P : Registry → Type 0) (t : Bool) (x y : Registry × B)
    → (t ≡ true → P x.0)
    → (t ≡ false → P y.0)
    → P (if t then x else y).0
branches P true x y a b = a refl
branches P false x y a b = b refl

-- Creation keeps the registry consistent as long as the identifiers last.
pub create_domain-IsConsistent :
    (s : Registry) → IsConsistent s → s.next_id + 1 < 2 ^ 16 → IsConsistent (create_domain s).0
unfolding create_domain
create_domain-IsConsistent s c h =
    branches IsConsistent (any free s.domains) _ _
      (λ t. record {
        distinct = Distinct-create s.next_id s.domains unused c.distinct;
        assigned =
            All-map (Assigned s.domains) _ s.assigns (λ a p u. kept a.domid (p u)) c.assigned;
        mapped = All-map (Mapped s.domains) _ s.mappings (λ m p u. kept m.domid (p u)) c.mapped;
        below =
            All-replace_first (Below s.next_id) _ free (taken s.next_id)
              (λ x b u. omega (arith, next)) s.domains above c.below;
        domain_slots = length-replace_first free (taken s.next_id) s.domains ∙ c.domain_slots;
        assign_slots = c.assign_slots;
        mapping_slots = c.mapping_slots;
      })
      (λ t. record {
        distinct = c.distinct;
        assigned = c.assigned;
        mapped = c.mapped;
        below = All-map (Below s.next_id) _ s.domains above c.below;
        domain_slots = c.domain_slots;
        assign_slots = c.assign_slots;
        mapping_slots = c.mapping_slots;
      })
  where
    next : (s.next_id + 1) % 2 ^ 16 ≡ s.next_id + 1
    next = omega arith

    unused : any (is_domain s.next_id) s.domains ≡ false
    unused = fresh s.next_id s.next_id s.domains c.below (omega arith)

    kept :
        (id : ℕ)
        → any (is_domain id) s.domains ≡ true
        → any (is_domain id) (replace_first free (taken s.next_id) s.domains) ≡ true
    kept id e =
        any-replace_first_keeps (is_domain id) free (taken s.next_id) s.domains
          (λ x q. ground (arith, q)) e

    above : (d : Domain) → Below s.next_id d → Below ((s.next_id + 1) % 2 ^ 16) d
    above d b u = omega (arith, next, b u)

pub destroy_domain-IsConsistent :
    (id : ℕ) (s : Registry) → IsConsistent s → IsConsistent (destroy_domain id s).0
unfolding destroy_domain
destroy_domain-IsConsistent id s c =
    branches IsConsistent (any (is_domain id) s.domains) _ _
      (λ t. record {
        distinct = Distinct-destroy id s.domains c.distinct;
        assigned =
            All-replace_all (Assigned s.domains) _ (assigned_to id) freed (λ a p u. absurd cc)
              s.assigns (λ a q p u. kept a.domid (ground (arith, q, u)) (p u)) c.assigned;
        mapped =
            All-replace_all (Mapped s.domains) _ (mapped_to id) unmapped (λ m p u. absurd cc)
              s.mappings (λ m q p u. kept m.domid (ground (arith, q, u)) (p u)) c.mapped;
        below =
            All-replace_first (Below s.next_id) _ (is_domain id) cleared (λ x b u. absurd cc)
              s.domains (λ x b. b) c.below;
        domain_slots = length-replace_first (is_domain id) cleared s.domains ∙ c.domain_slots;
        assign_slots = length-replace_all (assigned_to id) freed s.assigns ∙ c.assign_slots;
        mapping_slots = length-replace_all (mapped_to id) unmapped s.mappings ∙ c.mapping_slots;
      })
      (λ t. c)
  where
    kept :
        (k : ℕ)
        → (k == id) ≡ false
        → any (is_domain k) s.domains ≡ true
        → any (is_domain k) (replace_first (is_domain id) cleared s.domains) ≡ true
    kept k ne e =
        any-replace_first_keeps (is_domain k) (is_domain id) cleared s.domains
          (λ x q. ground (arith, q, ne)) e

pub assign_device-IsConsistent :
    (b : Bdf) (domid : ℕ) (s : Registry) → IsConsistent s → IsConsistent (assign_device b domid s).0
unfolding assign_device domain_exists
assign_device-IsConsistent b domid s c =
    branches IsConsistent (not (any (is_domain domid) s.domains)) _ _ (λ t. c)
      (λ t.
        branches IsConsistent (any (λ a. not a.used) s.assigns) _ _
          (λ k. record {
            distinct = c.distinct;
            assigned =
                All-replace_first (Assigned s.domains) _ _ _ (λ a p u. ground (arith, t)) s.assigns
                  (λ a p. p) c.assigned;
            mapped = c.mapped;
            below = c.below;
            domain_slots = c.domain_slots;
            assign_slots = length-replace_first _ _ s.assigns ∙ c.assign_slots;
            mapping_slots = c.mapping_slots;
          })
          (λ k. c))

pub unassign_device-IsConsistent :
    (b : Bdf) (s : Registry) → IsConsistent s → IsConsistent (unassign_device b s).0
unfolding unassign_device
unassign_device-IsConsistent b s c =
    branches IsConsistent (any (λ a. a.used && is_device b a) s.assigns) _ _
      (λ t. record {
        distinct = c.distinct;
        assigned =
            All-replace_first (Assigned s.domains) (Assigned s.domains)
              (λ a. a.used && is_device b a) freed (λ a p u. absurd cc) s.assigns (λ a p. p)
              c.assigned;
        mapped = c.mapped;
        below = c.below;
        domain_slots = c.domain_slots;
        assign_slots =
            length-replace_first (λ a. a.used && is_device b a) freed s.assigns ∙ c.assign_slots;
        mapping_slots = c.mapping_slots;
      })
      (λ t. c)

-- New mappings are all that matters of the registry to them.
pub with_mappings :
    (s : Registry) (ms : List Mapping)
    → IsConsistent s
    → All (Mapped s.domains) ms
    → length ms ≡ 256
    → IsConsistent (record s { mappings = ms })
with_mappings s ms c a n = record {
  distinct = c.distinct;
  assigned = c.assigned;
  mapped = a;
  below = c.below;
  domain_slots = c.domain_slots;
  assign_slots = c.assign_slots;
  mapping_slots = n;
}
