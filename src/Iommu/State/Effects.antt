-- ===== src/Iommu/State/Effects.antt =====
-- What the operations of the registry do, seen through its queries.
use zerovisor.Base.{
  ℕ, ◌≡◌, refl, ap, sym, true, false, ◌&&◌, not, List, [], ◌∷◌, Option, none, some, arith, ◌==◌,
  any, find, replace_first, All, All-replace_all, any-replace_first_adds, Bool-cases, inl, inr,
}
use zerovisor.Iommu.State.{
  Domain, DevAssign, Bdf, Registry, is_domain, is_device, create_domain, domain_exists,
  assign_device, destroy_domain, assigned_to, mapped_to, freed, unmapped, find_domain_for_bdf,
  domain_of,
}
use zerovisor.Iommu.State.Consistent.{IsConsistent, gone, fresh, free, taken, cleared}

-- An identifier that a consistent registry gives out names no domain before and one after.
pub create_domain-fresh :
    (s : Registry) (id : ℕ)
    → IsConsistent s
    → (create_domain s).1 ≡ some id
    → (domain_exists id s ≡ false) × (domain_exists id (create_domain s).0 ≡ true)
unfolding create_domain domain_exists
create_domain-fresh s id c e = elim (Bool-cases (any free s.domains)) [
  | inl t ↦
      let given : Option.some s.next_id ≡ some id = rw t at e in
      let same : s.next_id ≡ id = cc in
      let now =
        any-replace_first_adds (is_domain s.next_id) free (taken s.next_id) s.domains
          (λ x. ground arith) t in
      let before = fresh s.next_id s.next_id s.domains c.below (omega arith) in
      rw (t, sym same) (before, now)
  | inr t ↦ (let given : Option.none ≡ some id = rw t at e in absurd cc)
]

trivially : {A : Type 0} (xs : List A) → All (λ x. Unit {0}) xs
trivially [] = tt
trivially (x ∷ xs) = (tt, trivially xs)

-- After a domain of a consistent registry is destroyed, it exists no more, no assignment and no
-- mapping in use belongs to it, and any other domain exists if it did before.
pub destroy_domain-forgets :
    (id other : ℕ) (s : Registry)
    → IsConsistent s
    → domain_exists id s ≡ true
    → (other == id) ≡ false
    → ((destroy_domain id s).1 ≡ true)
      × (domain_exists id (destroy_domain id s).0 ≡ false)
      × All (λ a. assigned_to id a ≡ false) (destroy_domain id s).0.assigns
      × All (λ m. mapped_to id m ≡ false) (destroy_domain id s).0.mappings
      × (domain_exists other (destroy_domain id s).0 ≡ domain_exists other s)
unfolding destroy_domain domain_exists
destroy_domain-forgets id other s c e ne = rw e (
  refl,
  gone id s.domains c.distinct,
  All-replace_all (λ a. Unit {0}) (λ a. assigned_to id a ≡ false) (assigned_to id) freed
      (λ a p. refl) s.assigns (λ a q p. q) (trivially s.assigns),
  All-replace_all (λ m. Unit {0}) (λ m. mapped_to id m ≡ false) (mapped_to id) unmapped
      (λ m p. refl) s.mappings (λ m q p. q) (trivially s.mappings),
  same s.domains,
)
  where
    same :
        (ds : List Domain)
        → any (is_domain other) (replace_first (is_domain id) cleared ds) ≡ any (is_domain other) ds
    same [] = refl
    same (d ∷ ds) = ground (arith, ne, same ds)

find-replace_first :
    (b : Bdf) (slot : DevAssign) (xs : List DevAssign)
    → (slot.used && is_device b slot) ≡ true
    → find (λ a. a.used && is_device b a) xs ≡ none
    → any (λ a. not a.used) xs ≡ true
    → find (λ a. a.used && is_device b a) (replace_first (λ a. not a.used) (λ a. slot) xs)
      ≡ some slot
find-replace_first b slot [] w e h = absurd cc
find-replace_first b slot (a ∷ xs) w e h = elim (Bool-cases (a.used && is_device b a)) [
  | inl hit ↦ (let found : Option.some a ≡ none = rw hit at e in absurd cc)
  | inr miss ↦
      let later : find (λ a. a.used && is_device b a) xs ≡ none = rw miss at e in
      elim (Bool-cases a.used) [
        | inl t ↦
            let room : any (λ a. not a.used) xs ≡ true = rw t at h in
            let off : is_device b a ≡ false = ground (arith, t, miss) in
            rw (t, off) (find-replace_first b slot xs w later room)
        | inr t ↦ rw (t, w)
      ]
]

-- A device that has no domain and is assigned one with success has that one.
pub assign_device-find :
    (b : Bdf) (domid : ℕ) (s : Registry)
    → find_domain_for_bdf b s ≡ none
    → (assign_device b domid s).1 ≡ true
    → find_domain_for_bdf b (assign_device b domid s).0 ≡ some domid
unfolding assign_device find_domain_for_bdf domain_exists
assign_device-find b domid s e h = elim (Bool-cases (any (is_domain domid) s.domains)) [
  | inl known ↦ elim (Bool-cases (any (λ a. not a.used) s.assigns)) [
    | inl room ↦
        let slot : DevAssign = record {
          used = true;
          seg = b.seg;
          bus = b.bus;
          dev = b.dev;
          func = b.func;
          domid = domid;
        } in
        let nowhere : find (λ a. a.used && is_device b a) s.assigns ≡ none = no_domain _ e in
        rw (known, room)
          (ap domain_of (find-replace_first b slot s.assigns (ground arith) nowhere room))
    | inr full ↦ (let failed : false ≡ true = rw (known, full) at h in absurd cc)
  ]
  | inr unknown ↦ (let failed : false ≡ true = rw unknown at h in absurd cc)
]
  where
    no_domain : (o : Option DevAssign) → domain_of o ≡ none → o ≡ none
    no_domain none q = refl
    no_domain (some a) q = absurd cc
