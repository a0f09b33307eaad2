-- ===== src/Util/Crc32/Bitwise.antt =====
-- The table computes the division by the polynomial 0xEDB88320, bit by bit.
use zerovisor.Bits.Fields.{bit_and_mask}
use zerovisor.Bits.Xor.{xor-div_two, xor-mod_two, xor_comm, xor_assoc, xor-zero, xor_shifted}
use zerovisor.Base.{
  tabulate, ℕ, zero, suc, ◌*◌, ◌/◌, ◌%◌, ◌^◌, ◌<◌, ◌≡◌, refl, ap, ap₂, ◌∙◌, sym, List, [], ◌∷◌,
  arith, bit_xor, get_or, ◌==◌, if◌then◌else◌, not32,
}
use zerovisor.Util.Crc32.{crc_byte, crc_bytes, crc32}
use zerovisor.Util.Crc32.Table.{table}

-- One step of the division: shift right, and subtract the polynomial if a one falls out.
pub bit_step : ℕ → ℕ
bit_step c = if c % 2 == 1 then bit_xor (c / 2) 0xEDB88320 else c / 2

pub bit_steps : ℕ → ℕ → ℕ
bit_steps zero c = c
bit_steps (suc n) c = bit_steps n (bit_step c)

-- A byte joins the remainder and is divided out by eight steps.
pub divide_bytes : ℕ → List ℕ → ℕ
divide_bytes c [] = c
divide_bytes c (b ∷ bs) = divide_bytes (bit_steps 8 (bit_xor c b)) bs

abbrev poly : ℕ
poly = 0xEDB88320

zero-xor : (a : ℕ) → bit_xor 0 a ≡ a
zero-xor a = xor_comm 0 a ∙ xor-zero a

xor_right_swap : (a b c : ℕ) → bit_xor (bit_xor a b) c ≡ bit_xor (bit_xor a c) b
xor_right_swap a b c = rw (xor_assoc a b c, xor_comm b c, ← xor_assoc a c b)

-- The polynomial taken twice is gone.
poly_cancels : (a b : ℕ) → bit_xor (bit_xor a poly) (bit_xor b poly) ≡ bit_xor a b
poly_cancels a b =
    sym (xor_assoc (bit_xor a poly) b poly)
    ∙ ap (λ t. bit_xor t poly) (xor_right_swap a poly b)
    ∙ xor_assoc (bit_xor a b) poly poly
    ∙ xor-zero (bit_xor a b)

bit_step-xor : (a b : ℕ) → bit_step (bit_xor a b) ≡ bit_xor (bit_step a) (bit_step b)
unfolding bit_step
bit_step-xor a b =
    rw (xor-mod_two a b, xor-div_two a b)
      (ground (
        arith,
        poly_cancels (a / 2) (b / 2),
        xor_assoc (a / 2) (b / 2) poly,
        xor_right_swap (a / 2) (b / 2) poly,
      ))

bit_steps-xor : (n a b : ℕ) → bit_steps n (bit_xor a b) ≡ bit_xor (bit_steps n a) (bit_steps n b)
unfolding bit_steps
bit_steps-xor zero a b = refl
bit_steps-xor (suc n) a b =
    ap (bit_steps n) (bit_step-xor a b) ∙ bit_steps-xor n (bit_step a) (bit_step b)

bit_step-double : (m : ℕ) → bit_step (m * 2) ≡ m
unfolding bit_step
bit_step-double m = ground arith

-- Eight steps shift a remainder whose low byte is zero.
bit_steps-shift : (m : ℕ) → bit_steps 8 (m * 2 ^ 8) ≡ m
unfolding bit_steps
bit_steps-shift m =
    let e : m * 2 ^ 8 ≡ m * 2 * 2 * 2 * 2 * 2 * 2 * 2 * 2 = omega arith in
    rw e (simp bit_step-double)

get_or-tabulate : (n i d : ℕ) (f : ℕ → ℕ) → i < n → get_or (tabulate n f) i d ≡ f i
get_or-tabulate zero i d f h = absurd (omega arith)
get_or-tabulate (suc n) zero d f h = refl
get_or-tabulate (suc n) (suc i) d f h = get_or-tabulate n i d (λ j. f (suc j)) (omega arith)

table-eq-tabulate : table ≡ tabulate 256 (bit_steps 8)
unfolding bit_steps bit_step
table-eq-tabulate = refl

table-eq-bit_steps : (x : ℕ) → x < 256 → get_or table x 0 ≡ bit_steps 8 x
table-eq-bit_steps x h =
    ap (λ t. get_or t x 0) table-eq-tabulate ∙ get_or-tabulate 256 x 0 (bit_steps 8) h

eight_halves : (x : ℕ) → x / 2 ^ 8 ≡ x / 2 / 2 / 2 / 2 / 2 / 2 / 2 / 2
eight_halves x = omega arith

xor-high : (a b : ℕ) → bit_xor a b / 2 ^ 8 ≡ bit_xor (a / 2 ^ 8) (b / 2 ^ 8)
xor-high a b = rw (eight_halves (bit_xor a b), eight_halves a, eight_halves b) (simp xor-div_two)

-- Eight steps divide out the low byte by the table.
bit_steps-table : (x : ℕ) → bit_steps 8 x ≡ bit_xor (x / 2 ^ 8) (get_or table (x % 2 ^ 8) 0)
bit_steps-table x =
    ap (bit_steps 8) (sym (xor_shifted 8 (x / 2 ^ 8) (x % 2 ^ 8) (omega arith) ∙ omega arith))
    ∙ bit_steps-xor 8 (x / 2 ^ 8 * 2 ^ 8) (x % 2 ^ 8)
    ∙ ap₂ bit_xor (bit_steps-shift (x / 2 ^ 8)) (sym (table-eq-bit_steps (x % 2 ^ 8) (omega arith)))

crc_byte-eq-bit_steps : (c b : ℕ) → b < 256 → crc_byte c b ≡ bit_steps 8 (bit_xor c b)
unfolding crc_byte
crc_byte-eq-bit_steps c b h =
    let none_high : b / 2 ^ 8 ≡ 0 = omega arith in
    ap₂ bit_xor (sym (xor-high c b ∙ ap (bit_xor (c / 2 ^ 8)) none_high ∙ xor-zero (c / 2 ^ 8)))
      (ap (λ i. get_or table i 0) (bit_and_mask 8 (bit_xor c b)))
    ∙ sym (bit_steps-table (bit_xor c b))

abbrev pub IsBytes : List ℕ → Type 0
IsBytes [] = Unit {0}
IsBytes (x ∷ xs) = (x < 256) × IsBytes xs

crc_bytes-eq-divide_bytes : (c : ℕ) (bs : List ℕ) → IsBytes bs → crc_bytes c bs ≡ divide_bytes c bs
unfolding crc_bytes divide_bytes
crc_bytes-eq-divide_bytes c [] h = refl
crc_bytes-eq-divide_bytes c (b ∷ bs) h =
    ap (λ d. crc_bytes d bs) (crc_byte-eq-bit_steps c b h.0)
    ∙ crc_bytes-eq-divide_bytes (bit_steps 8 (bit_xor c b)) bs h.1

-- On bytes, `crc32` is the bitwise division of the message by the reflected polynomial
-- 0xEDB88320, started at all ones and complemented at the end.
pub crc32-eq-divide_bytes :
    (bs : List ℕ) → IsBytes bs → crc32 bs ≡ not32 (divide_bytes 0xFFFFFFFF bs)
unfolding crc32
crc32-eq-divide_bytes bs h = ap not32 (crc_bytes-eq-divide_bytes 0xFFFFFFFF bs h)
