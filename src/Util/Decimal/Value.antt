-- ===== src/Util/Decimal/Value.antt =====
-- What `u32_to_dec` writes is the number.
use native.Mathlib.Nat.{pow-suc}
use zerovisor.Base.{
  ℕ, zero, suc, ◌+◌, ◌-◌, ◌*◌, ◌/◌, ◌^◌, ◌≤◌, ◌<◌, min, ◌≡◌, refl, List, [], ◌∷◌, ◌++◌, arith,
  length, length-append, length-take, take_of_le, All, Bool, Bool-cases, false, ap, if◌then◌else◌,
  inl, inr, ◌==◌, ◌∙◌,
}
use zerovisor.Util.Decimal.{digits, reversed, u32_to_dec, put_dec}

-- The number that decimal digits stand for, behind those that come to `acc`.
unfoldable pub number : List ℕ → ℕ → ℕ
number [] acc = acc
number (d ∷ ds) acc = number ds (acc * 10 + (d - b'0'))

-- The number that digits stand for with the lowest first.
from_low : List ℕ → ℕ
from_low [] = 0
from_low (d ∷ ds) = (d - b'0') + 10 * from_low ds

number-snoc :
    (ds : List ℕ) (d acc : ℕ) → number (ds ++ (d ∷ [])) acc ≡ number ds acc * 10 + (d - b'0')
unfolding number
number-snoc [] d acc = refl
number-snoc (e ∷ ds) d acc = number-snoc ds d (acc * 10 + (e - b'0'))

number-reversed : (ds : List ℕ) → number (reversed ds) 0 ≡ from_low ds
unfolding number reversed from_low
number-reversed [] = refl
number-reversed (d ∷ ds) = omega (arith, number-snoc (reversed ds) d 0, number-reversed ds)

from_low-digits : (fuel v : ℕ) → v < 10 ^ fuel → from_low (digits fuel v) ≡ v
unfolding digits from_low
from_low-digits zero v h = omega arith
from_low-digits (suc fuel) v h =
    ground (arith, pow-suc 10 fuel, from_low-digits fuel (v / 10) (omega (arith, pow-suc 10 fuel)))

length-digits : (fuel v : ℕ) → length (digits fuel v) ≤ fuel
unfolding digits
length-digits zero v = omega arith
length-digits (suc fuel) v = ground (arith, length-digits fuel (v / 10))

length-reversed : (ds : List ℕ) → length (reversed ds) ≡ length ds
unfolding reversed
length-reversed [] = refl
length-reversed (d ∷ ds) = omega (arith, length-append (reversed ds) (d ∷ []), length-reversed ds)

-- One of the characters from 0 to 9.
pub record IsDigit (d : ℕ) : Type 0 where
  pub from_0 : b'0' ≤ d
  pub to_9 : d ≤ b'9'

digits-IsDigit : (fuel v : ℕ) → All IsDigit (digits fuel v)
unfolding digits
digits-IsDigit zero v = tt
digits-IsDigit (suc fuel) v = elim (Bool-cases (v == 0)) [
  | inl t ↦ rw t tt
  | inr t ↦ rw t (omega arith, digits-IsDigit fuel (v / 10))
]

All-append : (xs ys : List ℕ) → All IsDigit xs → All IsDigit ys → All IsDigit (xs ++ ys)
All-append [] ys a b = b
All-append (x ∷ xs) ys a b = (a.0, All-append xs ys a.1 b)

reversed-IsDigit : (ds : List ℕ) → All IsDigit ds → All IsDigit (reversed ds)
unfolding reversed
reversed-IsDigit [] a = tt
reversed-IsDigit (d ∷ ds) a = All-append (reversed ds) (d ∷ []) (reversed-IsDigit ds a.1) (a.0, tt)

length-digits_pos : (fuel v : ℕ) → 0 < v → 0 < length (digits (suc fuel) v)
unfolding digits
length-digits_pos fuel v h = ground arith

second : (c : Bool) (x y : List ℕ) → c ≡ false → (if c then x else y) ≡ y
second c x y e = ap (λ (b : Bool). if b then x else y) e

u32_to_dec-pos : (v room : ℕ) → 0 < v → 10 ≤ room → u32_to_dec v room ≡ reversed (digits 10 v)
unfolding u32_to_dec
u32_to_dec-pos v room h k =
    second (v == 0) _ _ (ground arith)
    ∙ take_of_le room (reversed (digits 10 v))
        (omega (arith, length-reversed (digits 10 v), length-digits 10 v))

u32_to_dec-zero : (room : ℕ) → 10 ≤ room → u32_to_dec 0 room ≡ b'0' ∷ []
unfolding u32_to_dec
u32_to_dec-zero room k = let roomy : (room == 0) ≡ false = ground arith in rw roomy refl

-- With room for ten digits, `u32_to_dec` writes at least one and at most ten bytes, each of them one
-- of the characters from 0 to 9, and they stand for the number.
pub u32_to_dec-number :
    (v room : ℕ)
    → v < 2 ^ 32
    → 10 ≤ room
    → (number (u32_to_dec v room) 0 ≡ v)
      × All IsDigit (u32_to_dec v room)
      × (0 < length (u32_to_dec v room))
      × (length (u32_to_dec v room) ≤ 10)
u32_to_dec-number zero room h k =
    rw (u32_to_dec-zero room k) (unfold number in refl, (omega arith, tt), omega arith, omega arith)
u32_to_dec-number (suc n) room h k =
    let ds = digits 10 (suc n) in
    rw (u32_to_dec-pos (suc n) room (omega arith) k) (
      number-reversed ds ∙ from_low-digits 10 (suc n) (omega arith),
      reversed-IsDigit ds (digits-IsDigit 10 (suc n)),
      omega (arith, length-reversed ds, length-digits_pos 9 (suc n) (omega arith)),
      omega (arith, length-reversed ds, length-digits 10 (suc n)),
    )

length-u32_to_dec : (v room : ℕ) → length (u32_to_dec v room) ≤ min room 10
unfolding u32_to_dec
length-u32_to_dec v room = ground (
  arith,
  length-take room (reversed (digits 10 v)),
  length-reversed (digits 10 v),
  length-digits 10 v,
)

-- A number makes a line at most ten bytes longer.
length-put_dec : (size v : ℕ) (line : List ℕ) → length (put_dec size v line) ≤ length line + 10
unfolding put_dec
length-put_dec size v line = omega (
  arith,
  length-append line (u32_to_dec v (size - length line)),
  length-u32_to_dec v (size - length line),
)

-- The steps by which a line is written, each with the length that it adds at most.
pub put_dec-within :
    (size v n : ℕ) (line : List ℕ) → length line ≤ n → length (put_dec size v line) ≤ n + 10
put_dec-within size v n line h = omega (arith, length-put_dec size v line)

pub append-within :
    (n : ℕ) (line more : List ℕ) → length line ≤ n → length (line ++ more) ≤ n + length more
append-within n line more h = omega (arith, length-append line more)
