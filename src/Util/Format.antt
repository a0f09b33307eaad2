-- ===== src/Util/Format.antt =====
-- src/util/format.rs: hexadecimal output without leading zeros, into a slice of `room` bytes.
use zerovisor.Base.{
  ℕ, zero, suc, ◌*◌, Bool, true, false, ◌||◌, not, List, [], ◌∷◌, bit_and, get_or, ltb, ◌==◌,
  if◌then◌else◌, ◌>>◌, pred,
}

-- `b"0123456789ABCDEF"`
abbrev pub hex_digits : List ℕ
hex_digits =
    0x30 ∷ 0x31 ∷ 0x32 ∷ 0x33 ∷ 0x34 ∷ 0x35 ∷ 0x36 ∷ 0x37 ∷ 0x38 ∷ 0x39 ∷ 0x41 ∷ 0x42 ∷ 0x43 ∷ 0x44
    ∷ 0x45 ∷ 0x46 ∷ []

-- The loop at `i - 1` for `i` digits left; `room` is what the slice still holds. A digit that
-- no longer fits is left out, and `started` is set by it all the same.
unfoldable pub hex_loop : ℕ → ℕ → ℕ → Bool → List ℕ
hex_loop zero v room started = []
hex_loop (suc i) v room started =
    let nyb = bit_and (v >> (i * 4)) 0xF in
    let shown = not (nyb == 0) || started || i == 0 in
    let written = get_or hex_digits nyb 0 ∷ hex_loop i v (pred room) true in
    let full = hex_loop i v room true in
    let skipped = hex_loop i v room started in
    if shown then (if ltb 0 room then written else full) else skipped

-- The bytes written; their number is what the source returns.
unfoldable pub u64_hex : ℕ → ℕ → List ℕ
unfolding hex_loop
u64_hex v room = hex_loop 16 v room false
