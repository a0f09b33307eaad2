-- ===== src/Migrate/Codec.antt =====
-- The frame header of src/migrate/mod.rs (`FrameHeader`, packed and little-endian) and the
-- reading of its fields (`le_u32`, `le_u64`).
pub mod Roundtrip
use zerovisor.Base.{
  ℕ, zero, suc, ◌+◌, ◌-◌, ◌*◌, ◌/◌, ◌%◌, ◌^◌, List, [], ◌∷◌, ◌++◌, bit_and, bit_or, take, drop,
  get_or, u8, ◌<<◌, ◌>>◌,
}

pub record FrameHeader : Type 0 where
  pub ver : ℕ
  pub typ : ℕ
  pub flags : ℕ
  pub seq : ℕ
  pub page_index : ℕ
  pub payload_len : ℕ
  pub crc : ℕ

-- `b"ZMIG"`
abbrev pub magic : List ℕ
magic = b'Z' ∷ b'M' ∷ b'I' ∷ b'G' ∷ []

abbrev pub typ_page : ℕ
typ_page = 1

abbrev pub typ_manifest : ℕ
typ_manifest = 2

abbrev pub typ_ctrl : ℕ
typ_ctrl = 3

abbrev pub ctrl_ack : ℕ
ctrl_ack = 1

abbrev pub ctrl_nak : ℕ
ctrl_nak = 2

abbrev pub flag_comp : ℕ
flag_comp = 1

-- `size_of::<FrameHeader>()`
abbrev pub header_size : ℕ
header_size = 28

-- The `n` bytes of a field in memory, lowest first.
abbrev pub le_bytes : ℕ → ℕ → List ℕ
le_bytes zero v = []
le_bytes (suc n) v = v % 2 ^ 8 ∷ le_bytes n (v / 2 ^ 8)

-- The header as the bytes behind a pointer to it.
unfoldable pub header_bytes : FrameHeader → List ℕ
header_bytes h =
    magic
    ++ (u8 h.ver ∷ u8 h.typ ∷ le_bytes 2 h.flags
        ++ (le_bytes 4 h.seq
            ++ (le_bytes 8 h.page_index ++ (le_bytes 4 h.payload_len ++ le_bytes 4 h.crc))))

-- `&b[from..to]`
abbrev pub slice : List ℕ → ℕ → ℕ → List ℕ
slice b from to = take (to - from) (drop from b)

unfoldable pub le_u32 : List ℕ → ℕ
le_u32 b =
    bit_or (bit_or (bit_or (get_or b 0 0) (get_or b 1 0 << 8)) (get_or b 2 0 << 16))
      (get_or b 3 0 << 24)

unfoldable pub le_u16 : List ℕ → ℕ
le_u16 b = bit_or (get_or b 0 0) (get_or b 1 0 << 8)

unfoldable pub le_u64 : List ℕ → ℕ
unfolding le_u32
le_u64 b = bit_or (le_u32 (slice b 0 4)) (le_u32 (slice b 4 8) << 32)

-- The fields that the readers take out of a header.
abbrev pub seq_of : List ℕ → ℕ
seq_of b = le_u32 (slice b 8 12)

abbrev pub flags_of : List ℕ → ℕ
flags_of b = le_u16 (slice b 6 8)

abbrev pub page_index_of : List ℕ → ℕ
page_index_of b = le_u64 (slice b 12 20)

abbrev pub payload_len_of : List ℕ → ℕ
payload_len_of b = le_u32 (slice b 20 24)

abbrev pub crc_of : List ℕ → ℕ
crc_of b = le_u32 (slice b 24 28)

-- `((v >> (8 * k)) & 0xFF) as u8`, as the senders write a body byte by byte.
abbrev pub byte_of : ℕ → ℕ → ℕ
byte_of v k = u8 (bit_and (v >> (8 * k)) 0xFF)

-- A field that is written byte by byte, lowest first.
abbrev pub two_bytes : ℕ → List ℕ
two_bytes v = byte_of v 0 ∷ byte_of v 1 ∷ []

abbrev pub four_bytes : ℕ → List ℕ
four_bytes v = byte_of v 0 ∷ byte_of v 1 ∷ byte_of v 2 ∷ byte_of v 3 ∷ []
