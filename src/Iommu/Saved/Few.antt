-- ===== src/Iommu/Saved/Few.antt =====
-- The saved assignments of src/iommu/mod.rs have no more domains than the registry has slots.
use zerovisor.Base.{
  ℕ, suc, ◌≤◌, ◌≡◌, refl, ◌∙◌, Bool, true, false, List, [], ◌∷◌, ◌++◌, arith, length, any, All,
  ◌==◌, if◌then◌else◌, Bool-cases, inl, inr,
}
use zerovisor.Iommu.State.{Domain, DevAssign, is_domain, list_assignments}
use zerovisor.Iommu.State.Consistent.{Assigned}
use zerovisor.Iommu.Saved.Numbers.{
  is_among, with_new, firsts, is_among-snoc, with_new-known, with_new-new,
}

abbrev pub domids : List DevAssign → List ℕ
domids [] = []
domids (a ∷ rest) = a.domid ∷ domids rest

-- No number is in the list twice.
abbrev Once : List ℕ → Type 0
Once [] = Unit {0}
Once (x ∷ xs) = (is_among x xs ≡ false) × Once xs

-- All the numbers are those of domains.
abbrev pub Exist : List Domain → List ℕ → Type 0
Exist ds xs = All (λ n. any (is_domain n) ds ≡ true) xs

Once-snoc : (e : ℕ) (xs : List ℕ) → Once xs → is_among e xs ≡ false → Once (xs ++ (e ∷ []))
unfolding is_among
Once-snoc e [] o h = (refl, tt)
Once-snoc e (x ∷ xs) o h =
    (ground (arith, is_among-snoc x e xs, o.0, h), Once-snoc e xs o.1 (ground (arith, h)))

Exist-snoc :
    (ds : List Domain) (e : ℕ) (xs : List ℕ)
    → Exist ds xs
    → any (is_domain e) ds ≡ true
    → Exist ds (xs ++ (e ∷ []))
Exist-snoc ds e [] a h = (h, tt)
Exist-snoc ds e (x ∷ xs) a h = (a.0, Exist-snoc ds e xs a.1 h)

with_new-Once : (e : ℕ) (xs : List ℕ) → Once xs → Once (with_new e xs)
with_new-Once e xs o = elim (Bool-cases (is_among e xs)) [
  | inl t ↦ rw (with_new-known e xs t) o
  | inr t ↦ rw (with_new-new e xs t) (Once-snoc e xs o t)
]

with_new-Exist :
    (ds : List Domain) (e : ℕ) (xs : List ℕ)
    → Exist ds xs
    → any (is_domain e) ds ≡ true
    → Exist ds (with_new e xs)
with_new-Exist ds e xs a h = elim (Bool-cases (is_among e xs)) [
  | inl t ↦ rw (with_new-known e xs t) a
  | inr t ↦ rw (with_new-new e xs t) (Exist-snoc ds e xs a h)
]

-- The domains without the first that has the number.
unfoldable without : ℕ → List Domain → List Domain
without n [] = []
without n (d ∷ ds) = if is_domain n d then ds else d ∷ without n ds

length-without :
    (n : ℕ) (ds : List Domain)
    → any (is_domain n) ds ≡ true
    → suc (length (without n ds)) ≡ length ds
unfolding without
length-without n [] h = absurd cc
length-without n (d ∷ ds) h = elim (Bool-cases (is_domain n d)) [
  | inl t ↦ rw t refl
  | inr t ↦ rw t (ground (arith, length-without n ds (ground (arith, h, t))))
]

any-without :
    (m n : ℕ) (ds : List Domain)
    → (m == n) ≡ false
    → any (is_domain m) (without n ds) ≡ any (is_domain m) ds
unfolding without
any-without m n [] h = refl
any-without m n (d ∷ ds) h = elim (Bool-cases (is_domain n d)) [
  | inl t ↦ (let other : is_domain m d ≡ false = ground (arith, t, h) in rw (t, other) refl)
  | inr t ↦ rw t (ground (arith, any-without m n ds h))
]

without-Exist :
    (n : ℕ) (ds : List Domain) (xs : List ℕ)
    → is_among n xs ≡ false
    → Exist ds xs
    → Exist (without n ds) xs
unfolding is_among
without-Exist n ds [] h a = tt
without-Exist n ds (x ∷ xs) h a =
    (any-without x n ds (ground (arith, h)) ∙ a.0, without-Exist n ds xs (ground (arith, h)) a.1)

length-Exist : (xs : List ℕ) (ds : List Domain) → Once xs → Exist ds xs → length xs ≤ length ds
length-Exist [] ds o a = omega arith
length-Exist (x ∷ xs) ds o a = omega (
  arith,
  length-without x ds a.0,
  length-Exist xs (without x ds) o.1 (without-Exist x ds xs o.0 a.1),
)

length-firsts_from :
    (ns seen : List ℕ) (ds : List Domain)
    → Once seen
    → Exist ds seen
    → Exist ds ns
    → length (firsts seen ns) ≤ length ds
unfolding firsts
length-firsts_from [] seen ds o a b = length-Exist seen ds o a
length-firsts_from (n ∷ ns) seen ds o a b =
    length-firsts_from ns (with_new n seen) ds (with_new-Once n seen o)
      (with_new-Exist ds n seen a b.0) b.1

pub length-firsts-Exist :
    (ns : List ℕ) (ds : List Domain) → Exist ds ns → length (firsts [] ns) ≤ length ds
length-firsts-Exist ns ds a = length-firsts_from ns [] ds tt tt a

pub list_assignments-Exist :
    (ds : List Domain) (slots : List DevAssign)
    → All (Assigned ds) slots
    → Exist ds (domids (list_assignments slots))
unfolding list_assignments
list_assignments-Exist ds [] a = tt
list_assignments-Exist ds (x ∷ rest) a = by_used x.used refl (list_assignments-Exist ds rest a.1)
  where
    by_used :
        (u : Bool)
        → x.used ≡ u
        → Exist ds (domids (list_assignments rest))
        → Exist ds (domids (if u then x ∷ list_assignments rest else list_assignments rest))
    by_used true t later = (a.0 t, later)
    by_used false t later = later
