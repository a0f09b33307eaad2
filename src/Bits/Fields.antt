-- ===== src/Bits/Fields.antt =====
-- `&` with a mask of low bits is a remainder, and `|` of disjoint fields is a sum.
use Prim.Native.Nat.{digits, bitwise, bit_and-bitwise, bit_or-bitwise}
use native.Mathlib.Nat.{pow-suc, one-le-pow, div-div-eq-div-mul}
use zerovisor.Base.{
  ℕ, zero, suc, ◌+◌, ◌-◌, ◌*◌, ◌/◌, ◌%◌, ◌^◌, ◌≤◌, ◌<◌, min, max, bit_and, bit_or, ◌≡◌, refl, ap,
  ◌∙◌, sym, arith, ◌<<◌,
}

-- Fuel beyond the number makes no difference to the digits.
module _ (low : ℕ → ℕ) (join : ℕ → ℕ → ℕ) where
  one_more_round : (n a b : ℕ) → a ≤ n → digits low join (suc n) a b ≡ digits low join n a b
  one_more_round n zero b h = elim n as (λ k. digits low join (suc k) 0 b ≡ digits low join k 0 b) [
    | zero ↦ refl
    | suc k ↦ refl
  ]
  one_more_round zero (suc a) b h = absurd (omega arith)
  one_more_round (suc n) (suc a) b h = rw (one_more_round n (suc a / 2) (b / 2) (omega arith))

  more_rounds : (extra a b : ℕ) → digits low join (a + extra) a b ≡ digits low join a a b
  more_rounds zero a b = let e : a + 0 ≡ a = omega arith in ap (λ k. digits low join k a b) e
  more_rounds (suc extra) a b =
      let e : a + suc extra ≡ suc (a + extra) = omega arith in
      ap (λ k. digits low join k a b) e
      ∙ one_more_round (a + extra) a b (omega arith)
      ∙ more_rounds extra a b

  pub bitwise_halves :
      (a b : ℕ)
      → bitwise low join (suc a) b
        ≡ bitwise low join (suc a / 2) (b / 2) * 2 + join (suc a % 2) (b % 2)
  bitwise_halves a b =
      let half = suc a / 2 in
      let e : half + (a - half) ≡ a = omega arith in
      let r : digits low join a half (b / 2) ≡ digits low join half half (b / 2) =
        ap (λ k. digits low join k half (b / 2)) (sym e) ∙ more_rounds (a - half) half (b / 2) in
      ap (λ d. d * 2 + join (suc a % 2) (b % 2)) r

pub and_halves : (a b : ℕ) → bit_and a b ≡ bit_and (a / 2) (b / 2) * 2 + min (a % 2) (b % 2)
and_halves zero b = simp bit_and-bitwise (omega arith)
and_halves (suc a) b = simp bit_and-bitwise (bitwise_halves (λ y. 0) min a b)

pub or_halves : (a b : ℕ) → bit_or a b ≡ bit_or (a / 2) (b / 2) * 2 + max (a % 2) (b % 2)
or_halves zero b = simp bit_or-bitwise (omega arith)
or_halves (suc a) b = simp bit_or-bitwise (bitwise_halves (λ y. y) max a b)

and_zero_fuel : (n a : ℕ) → a ≤ n → bit_and a 0 ≡ 0
and_zero_fuel n zero h = refl
and_zero_fuel zero (suc a) h = absurd (omega arith)
and_zero_fuel (suc n) (suc a) h =
    omega (arith, and_halves (suc a) 0, and_zero_fuel n (suc a / 2) (omega arith))

or_zero_fuel : (n a : ℕ) → a ≤ n → bit_or a 0 ≡ a
or_zero_fuel n zero h = refl
or_zero_fuel zero (suc a) h = absurd (omega arith)
or_zero_fuel (suc n) (suc a) h =
    omega (arith, or_halves (suc a) 0, or_zero_fuel n (suc a / 2) (omega arith))

pub bit_or-zero : (a : ℕ) → bit_or a 0 ≡ a
bit_or-zero a = or_zero_fuel a a (omega arith)

pub mul_two_pow : (q k : ℕ) → q * 2 ^ suc k ≡ 2 * (q * 2 ^ k)
mul_two_pow q k = omega (arith, ap (λ (t : ℕ). q * t) (pow-suc 2 k))

-- A field below `k` bits joined to one shifted by `k`.
pub bit_or_shifted : (k q r : ℕ) → r < 2 ^ k → bit_or (q << k) r ≡ q * 2 ^ k + r
bit_or_shifted zero q r h = ground (arith, bit_or-zero q)
bit_or_shifted (suc k) q r h = ground (
  arith,
  or_halves (q * 2 ^ suc k) r,
  mul_two_pow q k,
  bit_or_shifted k q (r / 2) (omega (arith, pow-suc 2 k)),
)

or_comm_fuel : (n a b : ℕ) → a ≤ n → b ≤ n → bit_or a b ≡ bit_or b a
or_comm_fuel zero a b p q = let e : a ≡ b = omega arith in rw e
or_comm_fuel (suc n) a b p q = omega (
  arith,
  or_halves a b,
  or_halves b a,
  or_comm_fuel n (a / 2) (b / 2) (omega arith) (omega arith),
)

pub bit_or_comm : (a b : ℕ) → bit_or a b ≡ bit_or b a
bit_or_comm a b = or_comm_fuel (a + b) a b (omega arith) (omega arith)

split_mask : (k q r : ℕ) → r < 2 ^ k → bit_and (q * 2 ^ k + r) (2 ^ k - 1) ≡ r
split_mask zero q r h = rw (and_zero_fuel (q * 1 + r) (q * 1 + r) (omega arith)) (omega arith)
split_mask (suc k) q r h = ground (
  arith,
  and_halves (q * 2 ^ suc k + r) (2 ^ suc k - 1),
  mul_two_pow q k,
  pow-suc 2 k,
  split_mask k q (r / 2) (omega (arith, pow-suc 2 k)),
)

-- A mask of the `k` low bits is the remainder by `2 ^ k`.
pub bit_and_mask : (k a : ℕ) → bit_and a (2 ^ k - 1) ≡ a % 2 ^ k
bit_and_mask k a = ground (arith, one-le-pow k 2, split_mask k (a / 2 ^ k) (a % 2 ^ k))

-- A mask of high bits acts on the quotient.
pub bit_and_shifted : (k a q : ℕ) → bit_and a (q * 2 ^ k) ≡ bit_and (a / 2 ^ k) q * 2 ^ k
bit_and_shifted zero a q = ground arith
bit_and_shifted (suc k) a q =
    let quotient : a / 2 ^ suc k ≡ a / 2 / 2 ^ k =
      ap (λ t. a / t) {y = 2 * 2 ^ k} (omega (arith, pow-suc 2 k))
      ∙ sym (div-div-eq-div-mul a 2 (2 ^ k)) in
    rw quotient (
      ground (
        arith,
        and_halves a (q * 2 ^ suc k),
        mul_two_pow q k,
        bit_and_shifted k (a / 2) q,
        pow-suc 2 k,
        mul_two_pow (bit_and (a / 2 / 2 ^ k) q) k,
      ))

-- What is below `k` bits is joined there.
pub bit_or_low :
    (k q r s : ℕ) → r < 2 ^ k → s < 2 ^ k → bit_or (q * 2 ^ k + r) s ≡ q * 2 ^ k + bit_or r s
bit_or_low zero q r s h t =
    let e : r ≡ 0 = omega arith in
    let f : s ≡ 0 = omega arith in rw (e, f) (ground (arith, bit_or-zero (q * 1 + 0)))
bit_or_low (suc k) q r s h t = ground (
  arith,
  or_halves (q * 2 ^ suc k + r) s,
  or_halves r s,
  mul_two_pow q k,
  pow-suc 2 k,
  bit_or_low k q (r / 2) (s / 2) (omega (arith, pow-suc 2 k)) (omega (arith, pow-suc 2 k)),
)
