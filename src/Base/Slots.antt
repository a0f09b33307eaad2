-- ===== src/Base/Slots.antt =====
-- Arrays of slots that are searched from the front: the loops over the fixed tables of the source,
-- with what they keep of the other slots.
use mathlib.Core.Path.{◌≡◌, refl, ap}
use mathlib.Core.Logic.{inl, inr}
use mathlib.Core.Bool.{Bool, true, false}
use mathlib.Core.List.{List, [], ◌∷◌}
use mathlib.Core.Option.{Option, none, some}
use native.Mathlib.Omega.{arith}
use zerovisor.Base.Tests.{if◌then◌else◌, Bool-cases}
use zerovisor.Base.Lists.{length}
use Prim.Native.Nat.{suc}

module _ {ℓ} {A : Type ℓ} where
  -- `iter().any(p)`, and whether a search for `p` finds a slot.
  abbrev pub any : (A → Bool) → List A → Bool
  any p [] = false
  any p (x ∷ xs) = if p x then true else any p xs

  -- The first slot that satisfies `p` is replaced by its image under `f`.
  abbrev pub replace_first : (A → Bool) → (A → A) → List A → List A
  replace_first p f [] = []
  replace_first p f (x ∷ xs) = if p x then f x ∷ xs else x ∷ replace_first p f xs

  -- Every slot that satisfies `p` is replaced.
  abbrev pub replace_all : (A → Bool) → (A → A) → List A → List A
  replace_all p f [] = []
  replace_all p f (x ∷ xs) = (if p x then f x else x) ∷ replace_all p f xs

  -- The first slot that satisfies `p`.
  abbrev pub find : (A → Bool) → List A → Option A
  find p [] = none
  find p (x ∷ xs) = if p x then some x else find p xs

  abbrev pub All : (A → Type 0) → List A → Type 0
  All P [] = Unit {0}
  All P (x ∷ xs) = P x × All P xs

  pub All-map : (P Q : A → Type 0) (xs : List A) → ((x : A) → P x → Q x) → All P xs → All Q xs
  All-map P Q [] h a = tt
  All-map P Q (x ∷ xs) h a = (h x a.0, All-map P Q xs h a.1)

  module _ (P Q : A → Type 0) (p : A → Bool) (f : A → A) (new : (x : A) → P x → Q (f x)) where
    pub All-replace_first :
        (xs : List A) → ((x : A) → P x → Q x) → All P xs → All Q (replace_first p f xs)
    All-replace_first [] old a = tt
    All-replace_first (x ∷ xs) old a = elim (Bool-cases (p x)) [
      | inl t ↦ rw t (new x a.0, All-map P Q xs old a.1)
      | inr t ↦ rw t (old x a.0, All-replace_first xs old a.1)
    ]

    pub All-replace_all :
        (xs : List A) → ((x : A) → p x ≡ false → P x → Q x) → All P xs → All Q (replace_all p f xs)
    All-replace_all [] old a = tt
    All-replace_all (x ∷ xs) old a = elim (Bool-cases (p x)) [
      | inl t ↦ rw t (new x a.0, All-replace_all xs old a.1)
      | inr t ↦ rw t (old x t a.0, All-replace_all xs old a.1)
    ]

  pub length-replace_first :
      (p : A → Bool) (f : A → A) (xs : List A) → length (replace_first p f xs) ≡ length xs
  length-replace_first p f [] = refl
  length-replace_first p f (x ∷ xs) = ground (arith, length-replace_first p f xs)

  pub length-replace_all :
      (p : A → Bool) (f : A → A) (xs : List A) → length (replace_all p f xs) ≡ length xs
  length-replace_all p f [] = refl
  length-replace_all p f (x ∷ xs) = ap suc (length-replace_all p f xs)

  -- A slot that satisfies `q` stays when those that are replaced do not.
  pub any-replace_first_keeps :
      (q p : A → Bool) (f : A → A) (xs : List A)
      → ((x : A) → q x ≡ true → p x ≡ false)
      → any q xs ≡ true
      → any q (replace_first p f xs) ≡ true
  any-replace_first_keeps q p f [] h e = e
  any-replace_first_keeps q p f (x ∷ xs) h e =
      ground (arith, h x, any-replace_first_keeps q p f xs h)

  -- A slot found is replaced by one that satisfies `q`.
  pub any-replace_first_adds :
      (q p : A → Bool) (f : A → A) (xs : List A)
      → ((x : A) → q (f x) ≡ true)
      → any p xs ≡ true
      → any q (replace_first p f xs) ≡ true
  any-replace_first_adds q p f [] h e = absurd cc
  any-replace_first_adds q p f (x ∷ xs) h e = ground (arith, h x, any-replace_first_adds q p f xs h)

  -- No slot satisfies `q` after a replacement by slots that do not.
  pub any-replace_first_none :
      (q p : A → Bool) (f : A → A) (xs : List A)
      → ((x : A) → q (f x) ≡ false)
      → any q xs ≡ false
      → any q (replace_first p f xs) ≡ false
  any-replace_first_none q p f [] h e = e
  any-replace_first_none q p f (x ∷ xs) h e = ground (arith, h x, any-replace_first_none q p f xs h)
