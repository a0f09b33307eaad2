-- ===== src/Migrate/Codec/Roundtrip.antt =====
-- Every field of a header is read back as it was written.
use zerovisor.Bits.Fields.{bit_or_shifted, bit_or_comm, bit_and_mask}
use zerovisor.Base.{
  ℕ, ◌+◌, ◌*◌, ◌/◌, ◌%◌, ◌^◌, ◌<◌, ◌≡◌, refl, ap, ap₂, ◌∙◌, List, [], ◌∷◌, ◌++◌, arith, bit_or,
  take, length, ◌<<◌,
}
use zerovisor.Migrate.Codec.{
  FrameHeader, le_bytes, header_bytes, le_u32, le_u16, le_u64, seq_of, flags_of, page_index_of,
  payload_len_of, crc_of, magic, header_size, byte_of, two_bytes, four_bytes,
}

-- A low field under a high one.
low_high : (k low high : ℕ) → low < 2 ^ k → bit_or low (high << k) ≡ high * 2 ^ k + low
low_high k low high h = bit_or_comm low (high << k) ∙ bit_or_shifted k high low h

le_u32-bytes :
    (a b c d : ℕ)
    → a < 256
    → b < 256
    → c < 256
    → d < 256
    → le_u32 (a ∷ b ∷ c ∷ d ∷ []) ≡ a + b * 2 ^ 8 + c * 2 ^ 16 + d * 2 ^ 24
unfolding le_u32
le_u32-bytes a b c d p q r s = omega (
  arith,
  low_high 8 a b p,
  ap (λ (t : ℕ). bit_or (bit_or t (c << 16)) (d << 24)) (low_high 8 a b p),
  ap (λ (t : ℕ). bit_or t (d << 24)) (low_high 16 (b * 2 ^ 8 + a) c (omega arith)),
  low_high 24 (c * 2 ^ 16 + (b * 2 ^ 8 + a)) d (omega arith),
)

le_u32-mod : (v : ℕ) → le_u32 (le_bytes 4 v) ≡ v % 2 ^ 32
le_u32-mod v =
    le_u32-bytes (v % 2 ^ 8) (v / 2 ^ 8 % 2 ^ 8) (v / 2 ^ 8 / 2 ^ 8 % 2 ^ 8)
      (v / 2 ^ 8 / 2 ^ 8 / 2 ^ 8 % 2 ^ 8) (omega arith) (omega arith) (omega arith) (omega arith)
    ∙ omega arith

le_u32-le_bytes : (v : ℕ) → v < 2 ^ 32 → le_u32 (le_bytes 4 v) ≡ v
le_u32-le_bytes v h = le_u32-mod v ∙ omega arith

le_u16-le_bytes : (v : ℕ) → v < 2 ^ 16 → le_u16 (le_bytes 2 v) ≡ v
unfolding le_u16
le_u16-le_bytes v h = low_high 8 (v % 2 ^ 8) (v / 2 ^ 8 % 2 ^ 8) (omega arith) ∙ omega arith

pub le_u64-le_bytes : (v : ℕ) → v < 2 ^ 64 → le_u64 (le_bytes 8 v) ≡ v
unfolding le_u64
le_u64-le_bytes v h =
    let high : ℕ = v / 2 ^ 8 / 2 ^ 8 / 2 ^ 8 / 2 ^ 8 in
    ap₂ (λ (a b : ℕ). bit_or a (b << 32)) (le_u32-mod v) (le_u32-mod high)
    ∙ low_high 32 (v % 2 ^ 32) (high % 2 ^ 32) (omega arith)
    ∙ omega arith

-- What `byte_of` writes is the byte of the little-endian form.
byte_of-eq : (v k : ℕ) → byte_of v k ≡ v / 2 ^ (8 * k) % 2 ^ 8
byte_of-eq v k = rw (bit_and_mask 8 (v / 2 ^ (8 * k))) (omega arith)

byte-small : (v k : ℕ) → byte_of v k < 256
byte-small v k = omega (arith, byte_of-eq v k)

pub le_u32-four_bytes : (v : ℕ) → v < 2 ^ 32 → le_u32 (four_bytes v) ≡ v
le_u32-four_bytes v h =
    le_u32-bytes (byte_of v 0) (byte_of v 1) (byte_of v 2) (byte_of v 3) (byte-small v 0)
      (byte-small v 1) (byte-small v 2) (byte-small v 3)
    ∙ omega (arith, byte_of-eq v 0, byte_of-eq v 1, byte_of-eq v 2, byte_of-eq v 3)

pub le_u16-two_bytes : (v : ℕ) → v < 2 ^ 16 → le_u16 (two_bytes v) ≡ v
le_u16-two_bytes v h =
    ap₂ (λ (a b : ℕ). le_u16 (a ∷ b ∷ [])) (byte_of-eq v 0) (byte_of-eq v 1)
    ∙ ap (λ (t : ℕ). le_u16 (t % 2 ^ 8 ∷ v / 2 ^ 8 % 2 ^ 8 ∷ [])) {x = v / 1} (omega arith)
    ∙ le_u16-le_bytes v h

pub record Fits (h : FrameHeader) : Type 0 where
  pub ver_fits : h.ver < 2 ^ 8
  pub typ_fits : h.typ < 2 ^ 8
  pub flags_fits : h.flags < 2 ^ 16
  pub seq_fits : h.seq < 2 ^ 32
  pub page_index_fits : h.page_index < 2 ^ 64
  pub payload_len_fits : h.payload_len < 2 ^ 32
  pub crc_fits : h.crc < 2 ^ 32

-- A header whose fields fit their widths is 28 bytes that begin with the magic, and, whatever
-- follows it, each reader of a field finds the value that was written.
pub header_fields :
    (h : FrameHeader) (rest : List ℕ)
    → Fits h
    → let b = header_bytes h ++ rest in
      (length (header_bytes h) ≡ header_size)
      × (take 4 b ≡ magic)
      × (flags_of b ≡ h.flags)
      × (seq_of b ≡ h.seq)
      × (page_index_of b ≡ h.page_index)
      × (payload_len_of b ≡ h.payload_len)
      × (crc_of b ≡ h.crc)
unfolding header_bytes
header_fields h rest f = (
  refl,
  refl,
  le_u16-le_bytes h.flags f.flags_fits,
  le_u32-le_bytes h.seq f.seq_fits,
  le_u64-le_bytes h.page_index f.page_index_fits,
  le_u32-le_bytes h.payload_len f.payload_len_fits,
  le_u32-le_bytes h.crc f.crc_fits,
)
