-- ===== src/Util/Decimal.antt =====
-- `u32_to_dec` of src/firmware/acpi/mod.rs: decimal output without leading zeros, into a slice of
-- `room` bytes.
pub mod Value
use Prim.Native.Char.{code}
use Prim.Native.String
use Prim.Native.String.{String}
use zerovisor.Base.{
  ℕ, zero, suc, ◌+◌, ◌-◌, ◌/◌, ◌%◌, List, [], ◌∷◌, ◌++◌, take, length, ◌==◌, if◌then◌else◌,
}

-- The first loop: the digits in `tmp`, the lowest first; `tmp` has room for `fuel` of them.
unfoldable pub digits : ℕ → ℕ → List ℕ
digits zero v = []
digits (suc fuel) v =
    let rest = digits fuel (v / 10) in if v == 0 then [] else (b'0' + v % 10) ∷ rest

-- The second loop takes them from the end of `tmp`.
unfoldable pub reversed : List ℕ → List ℕ
reversed [] = []
reversed (d ∷ ds) = reversed ds ++ (d ∷ [])

-- The bytes written; their number is what the source returns.
unfoldable pub u32_to_dec : ℕ → ℕ → List ℕ
unfolding digits reversed
u32_to_dec v room =
    if v == 0 then (if room == 0 then [] else b'0' ∷ []) else take room (reversed (digits 10 v))

-- The bytes of a literal.
abbrev pub codes : String → List ℕ
codes String.[] = []
codes (String.◌∷◌ c s) = code c ∷ codes s

-- `n += u32_to_dec(v, &mut buf[n..])`, for a buffer of `size` bytes.
unfoldable pub put_dec : ℕ → ℕ → List ℕ → List ℕ
unfolding u32_to_dec
put_dec size v line = line ++ u32_to_dec v (size - length line)
