-- ===== src/Iommu/Saved/Numbers.antt =====
-- The numbers that saved domains get when `cfg_load` of src/iommu/mod.rs creates them again.
use zerovisor.Base.{
  ℕ, suc, ◌+◌, ◌≤◌, ◌<◌, ◌≡◌, refl, ap, ◌∙◌, Bool, true, false, ◌||◌, List, [], ◌∷◌, ◌++◌, none,
  some, arith, length, ◌==◌, if◌then◌else◌, Bool-cases, inl, inr, length-append,
}
use zerovisor.Iommu.Saved.{Renamed, new_id}

unfoldable pub is_among : ℕ → List ℕ → Bool
is_among d [] = false
is_among d (x ∷ xs) = x == d || is_among d xs

-- The place of a number in a list whose first place is `i`.
unfoldable pub place : (i d : ℕ) → List ℕ → ℕ
place i d [] = i
place i d (x ∷ xs) = if x == d then i else place (suc i) d xs

-- A number that is new is put at the end.
unfoldable pub with_new : ℕ → List ℕ → List ℕ
unfolding is_among
with_new d xs = if is_among d xs then xs else xs ++ (d ∷ [])

-- The numbers of a list, each once, in the order in which they first appear, behind those of `seen`.
unfoldable pub firsts : (seen : List ℕ) → List ℕ → List ℕ
unfolding with_new
firsts seen [] = seen
firsts seen (d ∷ ds) = firsts (with_new d seen) ds

pub is_among-snoc :
    (d e : ℕ) (xs : List ℕ) → is_among d (xs ++ (e ∷ [])) ≡ (is_among d xs || e == d)
unfolding is_among
is_among-snoc d e [] = ground arith
is_among-snoc d e (x ∷ xs) = ground (arith, is_among-snoc d e xs)

place-snoc :
    (i d e : ℕ) (xs : List ℕ) → is_among d xs ≡ true → place i d (xs ++ (e ∷ [])) ≡ place i d xs
unfolding place is_among
place-snoc i d e [] h = absurd cc
place-snoc i d e (x ∷ xs) h = elim (Bool-cases (x == d)) [
  | inl t ↦ rw t refl
  | inr t ↦ rw t (place-snoc (suc i) d e xs (ground (arith, h, t)))
]

pub place-new :
    (i d : ℕ) (xs : List ℕ) → is_among d xs ≡ false → place i d (xs ++ (d ∷ [])) ≡ i + length xs
unfolding place is_among
place-new i d [] h = ground arith
place-new i d (x ∷ xs) h = elim (Bool-cases (x == d)) [
  | inl t ↦ absurd (ground (arith, h, t))
  | inr t ↦ rw t (place-new (suc i) d xs (ground (arith, h, t)) ∙ omega arith)
]

pub is_among-with_new : (d : ℕ) (xs : List ℕ) → is_among d (with_new d xs) ≡ true
unfolding with_new
is_among-with_new d xs = elim (Bool-cases (is_among d xs)) [
  | inl t ↦ rw (t, t) refl
  | inr t ↦ rw t (ground (arith, is_among-snoc d d xs))
]

is_among-kept : (d e : ℕ) (xs : List ℕ) → is_among d xs ≡ true → is_among d (with_new e xs) ≡ true
unfolding with_new
is_among-kept d e xs h = elim (Bool-cases (is_among e xs)) [
  | inl t ↦ rw t h
  | inr t ↦ rw t (ground (arith, is_among-snoc d e xs, h))
]

place-kept :
    (i d e : ℕ) (xs : List ℕ) → is_among d xs ≡ true → place i d (with_new e xs) ≡ place i d xs
unfolding with_new
place-kept i d e xs h = elim (Bool-cases (is_among e xs)) [
  | inl t ↦ rw t refl
  | inr t ↦ rw t (place-snoc i d e xs h)
]

-- A place is not changed by what comes later.
pub place-firsts :
    (i d : ℕ) (xs ds : List ℕ) → is_among d xs ≡ true → place i d (firsts xs ds) ≡ place i d xs
unfolding firsts
place-firsts i d xs [] h = refl
place-firsts i d xs (e ∷ ds) h =
    place-firsts i d (with_new e xs) ds (is_among-kept d e xs h) ∙ place-kept i d e xs h

pub place-bounds :
    (i d : ℕ) (xs : List ℕ)
    → is_among d xs ≡ true
    → (i ≤ place i d xs) × (place i d xs < i + length xs)
unfolding place is_among
place-bounds i d [] h = absurd cc
place-bounds i d (x ∷ xs) h = elim (Bool-cases (x == d)) [
  | inl t ↦ rw t (omega arith, omega arith)
  | inr t ↦ rw t (
      let ih = place-bounds (suc i) d xs (ground (arith, h, t)) in
      (omega (arith, ih.0), omega (arith, ih.1)))
]

length-with_new : (d : ℕ) (xs : List ℕ) → length xs ≤ length (with_new d xs)
unfolding with_new
length-with_new d xs = ground (arith, length-append xs (d ∷ []))

pub length-firsts : (xs ds : List ℕ) → length xs ≤ length (firsts xs ds)
unfolding firsts
length-firsts xs [] = omega arith
length-firsts xs (d ∷ ds) = omega (arith, length-with_new d xs, length-firsts (with_new d xs) ds)

-- The domains that stand for those seen, as `cfg_load` remembers them.
unfoldable pub numbered : ℕ → List ℕ → Renamed
numbered i [] = []
numbered i (x ∷ xs) = (x, i) ∷ numbered (suc i) xs

pub length-numbered : (i : ℕ) (xs : List ℕ) → length (numbered i xs) ≡ length xs
unfolding numbered
length-numbered i [] = refl
length-numbered i (x ∷ xs) = ap suc (length-numbered (suc i) xs)

pub numbered-snoc :
    (i d : ℕ) (xs : List ℕ)
    → numbered i (xs ++ (d ∷ [])) ≡ numbered i xs ++ ((d, i + length xs) ∷ [])
unfolding numbered
numbered-snoc i d [] = ap (λ (n : ℕ). (d, n) ∷ []) (omega arith)
numbered-snoc i d (x ∷ xs) =
    let last : suc i + length xs ≡ i + suc (length xs) = omega arith in
    ap (λ (r : Renamed). (x, i) ∷ r)
      (numbered-snoc (suc i) d xs ∙ ap (λ (n : ℕ). numbered (suc i) xs ++ ((d, n) ∷ [])) last)

pub new_id-numbered :
    (i d : ℕ) (xs : List ℕ)
    → new_id d (numbered i xs) ≡ (if is_among d xs then some (place i d xs) else none)
unfolding new_id numbered is_among place
new_id-numbered i d [] = refl
new_id-numbered i d (x ∷ xs) = elim (Bool-cases (x == d)) [
  | inl t ↦ rw t refl
  | inr t ↦ rw t (new_id-numbered (suc i) d xs)
]

pub with_new-known : (d : ℕ) (xs : List ℕ) → is_among d xs ≡ true → with_new d xs ≡ xs
unfolding with_new
with_new-known d xs h = rw h refl

pub with_new-new : (d : ℕ) (xs : List ℕ) → is_among d xs ≡ false → with_new d xs ≡ xs ++ (d ∷ [])
unfolding with_new
with_new-new d xs h = rw h refl
