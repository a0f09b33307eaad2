-- ===== src/Migrate/Verify/Frames.antt =====
-- Frames that were sent are verified: none is lost, and none is found bad.
use zerovisor.Util.Crc32.{crc32}
use zerovisor.Base.{
  ℕ, ◌+◌, ◌^◌, ◌≤◌, ◌<◌, ◌≡◌, refl, ap, ◌∙◌, sym, true, false, List, [], ◌∷◌, ◌++◌, some, arith,
  append_assoc, length, take, drop, take-append, drop-append, length-append, ◌==◌, ltb, u32,
}
use zerovisor.Migrate.Codec.{
  FrameHeader, header_bytes, magic, header_size, seq_of, payload_len_of, crc_of,
}
use zerovisor.Migrate.Codec.Roundtrip.{Fits, header_fields}
use zerovisor.Migrate.Cursor.{Cursor, read_into, skip, checksum}
use zerovisor.Migrate.Cursor.Laws.{
  IsReader, view, advance, length-view, view-advance, advance-IsReader, read_into-eq, skip-eq,
}
use zerovisor.Migrate.Cursor.Checksum.{checksum-eq-crc32}
use zerovisor.Migrate.Sender.{frame_header}
use zerovisor.Migrate.Sender.Page.{frame_bytes, crc-frame_header}
use zerovisor.Migrate.Verify.{
  same_bytes, refresh, Verify, record_frame, verify_frame, verify_header, verify_step, past_read,
  past_skip,
}

-- A frame to be sent, whose fields fit their widths. A payload is at least four bytes long, since
-- the header is peeked at with a slice of 32 bytes where it has 28.
pub record Frame : Type 0 where
  pub typ : ℕ
  pub flags : ℕ
  pub seq : ℕ
  pub page_index : ℕ
  pub payload : List ℕ

abbrev pub bytes_of : Frame → List ℕ
bytes_of f = frame_bytes f.typ f.flags f.seq f.page_index f.payload

pub record IsSendable (f : Frame) : Type 0 where
  pub typ_fits : f.typ < 2 ^ 8
  pub flags_fits : f.flags < 2 ^ 16
  pub seq_fits : f.seq < 2 ^ 32
  pub page_index_fits : f.page_index < 2 ^ 64
  pub long : 4 ≤ length f.payload
  pub length_fits : length f.payload < 2 ^ 32

abbrev pub AllSendable : List Frame → Type 0
AllSendable [] = Unit {0}
AllSendable (f ∷ fs) = IsSendable f × AllSendable fs

abbrev pub stream : List Frame → List ℕ
stream [] = []
stream (f ∷ fs) = bytes_of f ++ stream fs

abbrev pub header_of : Frame → FrameHeader
header_of f = frame_header f.typ f.flags f.seq f.page_index f.payload

crc32-lt : (bs : List ℕ) → crc32 bs < 2 ^ 32
unfolding crc32
crc32-lt bs = omega arith

pub header_of-Fits : (f : Frame) → IsSendable f → Fits (header_of f)
unfolding frame_header
header_of-Fits f s = record {
  ver_fits = omega arith;
  typ_fits = s.typ_fits;
  flags_fits = s.flags_fits;
  seq_fits = s.seq_fits;
  page_index_fits = s.page_index_fits;
  payload_len_fits = omega arith;
  crc_fits = rw (crc-frame_header f.typ f.flags f.seq f.page_index f.payload) (crc32-lt f.payload);
}

pub payload_len-header_of :
    (f : Frame) → IsSendable f → (header_of f).payload_len ≡ length f.payload
unfolding frame_header
payload_len-header_of f s = omega arith

-- The 32 bytes that are peeked at before a frame.
pub peeked :
    (f : Frame) (rest : List ℕ)
    → IsSendable f
    → take 32 (bytes_of f ++ rest) ≡ header_bytes (header_of f) ++ take 4 (f.payload ++ rest)
unfolding header_bytes
peeked f rest s = refl

-- The state after a good frame.
abbrev pub after_frame : Verify → Frame → Verify
after_frame s f = record {
  cur =
      refresh (record_frame false true s.expected_seq f.seq (length f.payload) s.state)
        (advance (advance s.cur header_size) (length f.payload));
  frames = s.frames + 1;
  ok = s.ok + 1;
  bad = s.bad;
  expected_seq = u32 (f.seq + 1);
  state = record_frame false true s.expected_seq f.seq (length f.payload) s.state;
}

seq-header_of : (f : Frame) → (header_of f).seq ≡ f.seq
unfolding frame_header
seq-header_of f = refl

verify_header-frame :
    (s : Verify) (hdr : List ℕ) (c : Cursor)
    → take 4 hdr ≡ magic
    → verify_header false s (some (hdr, c)) ≡ verify_frame false hdr s
unfolding same_bytes
verify_header-frame s hdr c e = rw e

module _ (s : Verify) (f : Frame) (rest : List ℕ) (v : IsReader s.cur)
    (w : s.cur.remaining < 2 ^ 64) (sendable : IsSendable f)
    (e : view s.cur ≡ bytes_of f ++ rest) where
  abbrev pub payload_cursor : Cursor
  payload_cursor = advance s.cur header_size

  length-header : length (header_bytes (header_of f)) ≡ header_size
  length-header = (header_fields (header_of f) [] (header_of-Fits f sendable)).0

  pub remaining-eq : s.cur.remaining ≡ header_size + (length f.payload + length rest)
  remaining-eq = omega (
    arith,
    length-view s.cur,
    ap length e,
    length-append (bytes_of f) rest,
    length-append (header_bytes (header_of f)) f.payload,
    length-header,
  )

  pub view-payload : view payload_cursor ≡ f.payload ++ rest
  view-payload =
      view-advance s.cur header_size (omega (arith, remaining-eq))
      ∙ ap (drop header_size) (e ∙ append_assoc (header_bytes (header_of f)) f.payload rest)
      ∙ drop-append header_size (header_bytes (header_of f)) (f.payload ++ rest) (sym length-header)

  checksum-payload : checksum payload_cursor (length f.payload) ≡ crc32 f.payload
  checksum-payload =
      checksum-eq-crc32 payload_cursor (length f.payload) (advance-IsReader header_size v)
        (omega (arith, remaining-eq)) (omega arith)
      ∙ ap crc32 (
          ap (take (length f.payload)) view-payload
          ∙ take-append (length f.payload) f.payload rest refl)

  header_read : past_read s.cur (read_into s.cur header_size) ≡ payload_cursor
  header_read = rw (read_into-eq s.cur header_size v (omega (arith, remaining-eq)))

  payload_skipped :
      past_skip payload_cursor (skip payload_cursor (length f.payload))
      ≡ advance payload_cursor (length f.payload)
  payload_skipped = rw (
      skip-eq payload_cursor (length f.payload) (advance-IsReader header_size v)
        (omega (arith, remaining-eq)))

  verify_frame-good :
      (hdr : List ℕ)
      → seq_of hdr ≡ f.seq
      → payload_len_of hdr ≡ length f.payload
      → crc_of hdr ≡ crc32 f.payload
      → verify_frame false hdr s ≡ some (after_frame s f)
  unfolding verify_frame
  verify_frame-good hdr p q r =
      let enough : ltb payload_cursor.remaining (length f.payload) ≡ false =
        ground (arith, remaining-eq) in
      let same : (crc32 f.payload == crc32 f.payload) ≡ true = ground arith in
      rw (header_read, p, q, r, checksum-payload, payload_skipped, enough, same)

  pub verify_step-frame : verify_step false s ≡ some (after_frame s f)
  unfolding verify_step
  verify_step-frame =
      let hdr = header_bytes (header_of f) ++ take 4 (f.payload ++ rest) in
      let fields =
        header_fields (header_of f) (take 4 (f.payload ++ rest)) (header_of-Fits f sendable) in
      ap (verify_header false s) (read_into-eq s.cur 32 v (omega (arith, remaining-eq)))
      ∙ ap (λ l. verify_header false s (some (l, advance s.cur 32)))
          (ap (take 32) e ∙ peeked f rest sendable)
      ∙ verify_header-frame s hdr (advance s.cur 32) fields.1
      ∙ verify_frame-good hdr (fields.3 ∙ seq-header_of f)
          (fields.5 ∙ payload_len-header_of f sendable)
          (fields.6 ∙ crc-frame_header f.typ f.flags f.seq f.page_index f.payload)
