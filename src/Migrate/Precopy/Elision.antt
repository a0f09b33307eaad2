-- ===== src/Migrate/Precopy/Elision.antt =====
-- Which pages `precopy` of src/migrate/mod.rs leaves out, by their bytes.
use zerovisor.Base.{
  ℕ, zero, suc, ◌+◌, ◌*◌, ◌/◌, ◌%◌, ◌^◌, ◌<◌, ◌≡◌, refl, ap, ap₂, ◌∙◌, sym, Bool, true, false, ◌&&◌,
  ◌||◌, List, [], ◌∷◌, arith, tabulate, tabulate_ext, bit_xor, ◌==◌, not, if◌then◌else◌,
}
use native.Mathlib.Nat.{pow-suc}
use zerovisor.Migrate.Codec.{le_bytes, le_u64}
use zerovisor.Migrate.Codec.Roundtrip.{le_u64-le_bytes}
use zerovisor.Migrate.Sink.{word_at, all_zero, page_hash}

-- Whether `len` bytes of the memory are all 0.
unfoldable pub is_blank : (ℕ → ℕ) → (start len : ℕ) → Bool
is_blank phys start zero = true
is_blank phys start (suc len) = phys start == 0 && is_blank phys (start + 1) len

-- The number that `n` bytes of the memory stand for, the lowest first.
unfoldable pub little_endian : (ℕ → ℕ) → (start n : ℕ) → ℕ
little_endian phys start zero = 0
little_endian phys start (suc n) = phys start + 256 * little_endian phys (start + 1) n

-- The FNV-1a hash of numbers of 64 bits, from `h` on.
unfoldable pub fnv_1a : ℕ → List ℕ → ℕ
fnv_1a h [] = h
fnv_1a h (v ∷ vs) = fnv_1a (bit_xor h v * 1099511628211 % 2 ^ 64) vs

-- The `n` numbers of 64 bits from an address on.
unfoldable pub numbers : (ℕ → ℕ) → (start n : ℕ) → List ℕ
unfolding little_endian
numbers phys start zero = []
numbers phys start (suc n) = little_endian phys start 8 ∷ numbers phys (start + 8) n

-- A page is left out if all its bytes are 0, or its hash is.
unfoldable pub is_left_out : (ℕ → ℕ) → ℕ → Bool
unfolding is_blank fnv_1a numbers
is_left_out phys pa = is_blank phys pa 4096 || fnv_1a 1469598103934665603 (numbers phys pa 512) == 0

sum_zero : (b n : ℕ) → (b + 256 * n == 0) ≡ (b == 0 && n == 0)
sum_zero b n = ground arith

and_assoc : (a b c : Bool) → ((a && b) && c) ≡ (a && (b && c))
and_assoc true b c = refl
and_assoc false b c = refl

first : (a b : Bool) → (if not a then false else b) ≡ (a && b)
first true b = refl
first false b = refl

module _ (phys : ℕ → ℕ) (bytes : (a : ℕ) → phys a < 256) where
  little_endian-small : (start n : ℕ) → little_endian phys start n < 256 ^ n
  unfolding little_endian
  little_endian-small start zero = omega arith
  little_endian-small start (suc n) =
      omega (arith, bytes start, little_endian-small (start + 1) n, pow-suc 256 n)

  le_bytes-little_endian :
      (start n : ℕ) → le_bytes n (little_endian phys start n) ≡ tabulate n (λ i. phys (start + i))
  unfolding little_endian
  le_bytes-little_endian start zero = refl
  le_bytes-little_endian start (suc n) =
      let b = bytes start in
      let rest = little_endian phys (start + 1) n in
      let low : (phys start + 256 * rest) % 2 ^ 8 ≡ phys (start + 0) =
        omega arith ∙ ap phys {x = start} {y = start + 0} (omega arith) in
      let high : (phys start + 256 * rest) / 2 ^ 8 ≡ rest = omega arith in
      ap₂ (λ (x : ℕ) (xs : List ℕ). x ∷ xs) low
        (ap (le_bytes n) high
          ∙ le_bytes-little_endian (start + 1) n
          ∙ tabulate_ext n (λ i. phys (start + 1 + i)) (λ i. phys (start + suc i))
              (λ i p. ap phys (omega arith)))

  word_at-little_endian : (pa i : ℕ) → word_at phys pa i ≡ little_endian phys (pa + i * 8) 8
  word_at-little_endian pa i =
      ap le_u64 (sym (le_bytes-little_endian (pa + i * 8) 8))
      ∙ le_u64-le_bytes (little_endian phys (pa + i * 8) 8)
          (omega (arith, little_endian-small (pa + i * 8) 8))

  little_endian-is_blank : (start n : ℕ) → (little_endian phys start n == 0) ≡ is_blank phys start n
  unfolding little_endian is_blank
  little_endian-is_blank start zero = refl
  little_endian-is_blank start (suc n) =
      let ih = little_endian-is_blank (start + 1) n in
      sum_zero (phys start) (little_endian phys (start + 1) n)
      ∙ ap (λ (t : Bool). phys start == 0 && t) ih

  is_blank-add :
      (start n m : ℕ)
      → is_blank phys start (n + m) ≡ (is_blank phys start n && is_blank phys (start + n) m)
  unfolding is_blank
  is_blank-add start zero m =
      let from : start ≡ start + 0 = omega arith in
      let none_more : 0 + m ≡ m = omega arith in ap₂ (λ (a n : ℕ). is_blank phys a n) from none_more
  is_blank-add start (suc n) m =
      let next : start + 1 + n ≡ start + suc n = omega arith in
      let more : suc n + m ≡ suc (n + m) = omega arith in
      ap (is_blank phys start) more
      ∙ ap (λ (t : Bool). phys start == 0 && t)
          (is_blank-add (start + 1) n m
            ∙ ap (λ (a : ℕ). is_blank phys (start + 1) n && is_blank phys a m) next)
      ∙ sym (and_assoc (phys start == 0) (is_blank phys (start + 1) n) _)

  all_zero-is_blank :
      (pa left i : ℕ) → all_zero phys pa left i ≡ is_blank phys (pa + i * 8) (left * 8)
  unfolding all_zero is_blank
  all_zero-is_blank pa zero i = refl
  all_zero-is_blank pa (suc left) i =
      let word =
        ap (λ (v : ℕ). v == 0) (word_at-little_endian pa i)
        ∙ little_endian-is_blank (pa + i * 8) 8 in
      let next : pa + (i + 1) * 8 ≡ pa + i * 8 + 8 = omega arith in
      first (word_at phys pa i == 0) (all_zero phys pa left (i + 1))
      ∙ ap₂ (λ (s t : Bool). s && t) word
          (all_zero-is_blank pa left (i + 1) ∙ ap (λ (a : ℕ). is_blank phys a (left * 8)) next)
      ∙ sym (is_blank-add (pa + i * 8) 8 (left * 8))
      ∙ ap (is_blank phys (pa + i * 8)) (omega arith)

  page_hash-fnv_1a :
      (pa left i h : ℕ) → page_hash phys pa left i h ≡ fnv_1a h (numbers phys (pa + i * 8) left)
  unfolding page_hash fnv_1a numbers
  page_hash-fnv_1a pa zero i h = refl
  page_hash-fnv_1a pa (suc left) i h =
      let next : pa + (i + 1) * 8 ≡ pa + i * 8 + 8 = omega arith in
      let mixed : ℕ = bit_xor h (little_endian phys (pa + i * 8) 8) * 1099511628211 % 2 ^ 64 in
      ap (λ (v : ℕ). page_hash phys pa left (i + 1) (bit_xor h v * 1099511628211 % 2 ^ 64))
        (word_at-little_endian pa i)
      ∙ page_hash-fnv_1a pa left (i + 1) mixed
      ∙ ap (λ (a : ℕ). fnv_1a mixed (numbers phys a left)) next

  -- The two tests of a page are whether it is left out.
  pub is_left_out-eq :
      (pa : ℕ)
      → (all_zero phys pa 512 0 || page_hash phys pa 512 0 1469598103934665603 == 0)
        ≡ is_left_out phys pa
  unfolding is_left_out
  is_left_out-eq pa =
      ap₂ (λ (s : Bool) (h : ℕ). s || h == 0)
        (all_zero-is_blank pa 512 0 ∙ ap (λ (a : ℕ). is_blank phys a 4096) (omega arith))
        (page_hash-fnv_1a pa 512 0 1469598103934665603
          ∙ ap (λ (a : ℕ). fnv_1a 1469598103934665603 (numbers phys a 512)) (omega arith))
