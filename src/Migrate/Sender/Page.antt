-- ===== src/Migrate/Sender/Page.antt =====
-- What the frames of a page, a manifest and a control message are when they reach the channel.
use zerovisor.Util.Crc32.{crc32}
use zerovisor.Util.Crc32.Laws.{crc32_ptr-eq-crc32}
use zerovisor.Base.{
  ℕ, ◌+◌, ◌<◌, ◌%◌, ◌^◌, ◌≡◌, refl, ap, ap₂, ◌∙◌, Bool, true, false, List, [], ◌∷◌, ◌++◌, some, ◌⊎◌,
  ltb→lt, length, get_or, set, tabulate, u32, bit_and, not, ◌==◌, ltb, Option-cases, inl, inr,
  Bool-cases,
}
use zerovisor.Migrate.Channel.{Buffer}
use zerovisor.Migrate.Channel.Ring.{IsValid, pushes, pushes-IsValid}
use zerovisor.Migrate.State.{
  Machine, TxEntry, mig_frames, mig_manifests, mig_compressed_pages, mig_raw_pages,
}
use zerovisor.Migrate.Codec.{FrameHeader, header_bytes, typ_page, typ_manifest, flag_comp}
use zerovisor.Migrate.Rle.{rle_compress_page, expand, page}
use zerovisor.Migrate.Rle.Roundtrip.{expand-rle_compress_page}
use zerovisor.Migrate.Sender.{
  buffer_writer, send_bytes, take_seq, frame_header, send_frame, page_payload, frame_and_send_page,
  count_page, frame_and_send_manifest, manifest_body, tx_log_append, tx_log_cap,
}
use zerovisor.Migrate.Sender.Writers.{
  Delivers, count-Delivers, Delivers-append, send_bytes-Delivers,
}

tabulate-get_or : (xs : List ℕ) → tabulate (length xs) (λ i. get_or xs i 0) ≡ xs
tabulate-get_or [] = refl
tabulate-get_or (x ∷ xs) = ap (◌∷◌ x) (tabulate-get_or xs)

-- The checksum in a header is that of the payload.
pub crc-frame_header :
    (typ flags seq page_index : ℕ) (payload : List ℕ)
    → (frame_header typ flags seq page_index payload).crc ≡ crc32 payload
unfolding frame_header
crc-frame_header typ flags seq page_index payload =
    crc32_ptr-eq-crc32 (λ i. get_or payload i 0) (length payload)
    ∙ ap crc32 (tabulate-get_or payload)

-- A frame as it stands in the channel.
abbrev pub frame_bytes : ℕ → ℕ → ℕ → ℕ → List ℕ → List ℕ
frame_bytes typ flags seq page_index payload =
    header_bytes (frame_header typ flags seq page_index payload) ++ payload

send_frame-Delivers :
    (b : Buffer) (chunked : Bool) (hdr : FrameHeader) (payload : List ℕ) (m : Machine)
    → IsValid b
    → m.chan ≡ some b
    → Delivers b (header_bytes hdr ++ payload) m (send_frame buffer_writer chunked hdr payload m)
unfolding send_frame
send_frame-Delivers b chunked hdr payload m v e =
    let first = send_bytes-Delivers b chunked (header_bytes hdr) m v e in
    Delivers-append first (
      send_bytes-Delivers (pushes b (header_bytes hdr)) chunked payload
        (send_bytes buffer_writer chunked (header_bytes hdr) m)
        (pushes-IsValid (header_bytes hdr) v) first.chan)

count_page-Delivers :
    (c : Bool) {b : Buffer} {src : List ℕ} {m n : Machine}
    → Delivers b src m n
    → Delivers b src m (count_page c n)
unfolding count_page
count_page-Delivers true d = count-Delivers mig_compressed_pages 1 d
count_page-Delivers false d = count-Delivers mig_raw_pages 1 d

logged :
    (kind seq page_index : ℕ) {b : Buffer} {src : List ℕ} {m n : Machine}
    → Delivers b src m n
    → let m' = tx_log_append kind seq page_index n in
      (m'.chan ≡ some (pushes b src))
      × (m'.next_seq ≡ m.next_seq)
      × (m'.tx_log
          ≡ set m.tx_log
              (m.tx_widx % tx_log_cap)
              (record { kind = kind; seq = seq; page_index = page_index }))
      × (m'.tx_widx ≡ (m.tx_widx + 1) % 2 ^ 64)
unfolding tx_log_append
logged kind seq page_index d = (
  d.chan,
  d.next_seq,
  ap₂
      (λ (l : List TxEntry) (w : ℕ).
        set l (w % tx_log_cap) (record { kind = kind; seq = seq; page_index = page_index }))
      d.tx_log d.tx_widx,
  ap (λ (w : ℕ). (w + 1) % 2 ^ 64) d.tx_widx,
)

-- Sending a page to the channel buffer appends exactly one page frame with the next sequence
-- number to it, in chunks or not; the number is advanced modulo 2 ^ 32, the frame is noted in the
-- transmit log, and the index of the log is advanced modulo 2 ^ 64. The length of the payload is
-- reported.
pub frame_and_send_page-Delivers :
    (b : Buffer) (page_index : ℕ) (bytes : List ℕ) (compress chunked : Bool) (m : Machine)
    → IsValid b
    → m.chan ≡ some b
    → let (flags, payload) = page_payload compress bytes in
      let (m', _, n) = frame_and_send_page buffer_writer page_index bytes compress chunked m in
      (m'.chan ≡ some (pushes b (frame_bytes typ_page flags m.next_seq page_index payload)))
      × (m'.next_seq ≡ u32 (m.next_seq + 1))
      × (m'.tx_log
          ≡ set m.tx_log
              (m.tx_widx % tx_log_cap)
              (record { kind = typ_page; seq = m.next_seq; page_index = page_index }))
      × (m'.tx_widx ≡ (m.tx_widx + 1) % 2 ^ 64)
      × (n ≡ length payload)
unfolding frame_and_send_page
frame_and_send_page-Delivers b page_index bytes compress chunked m v e =
    let (flags, payload) = page_payload compress bytes in
    let hdr = frame_header typ_page flags m.next_seq page_index payload in
    let d = send_frame-Delivers b chunked hdr payload (take_seq m) v e in
    let c = not (bit_and flags flag_comp == 0) in
    let l =
      logged typ_page m.next_seq page_index
        (count_page-Delivers c (count-Delivers mig_frames 1 d)) in
    (l.0, l.1, l.2, l.3, refl)

-- The manifest of a session is one more frame, with the page and byte counts as its payload.
pub frame_and_send_manifest-Delivers :
    (b : Buffer) (pages bytes : ℕ) (chunked : Bool) (m : Machine)
    → IsValid b
    → m.chan ≡ some b
    → let m' = frame_and_send_manifest buffer_writer pages bytes chunked m in
      (m'.chan
        ≡ some (pushes b (frame_bytes typ_manifest 0 m.next_seq 0 (manifest_body pages bytes))))
      × (m'.next_seq ≡ u32 (m.next_seq + 1))
      × (m'.tx_log
          ≡ set m.tx_log
              (m.tx_widx % tx_log_cap)
              (record { kind = typ_manifest; seq = m.next_seq; page_index = 0 }))
      × (m'.tx_widx ≡ (m.tx_widx + 1) % 2 ^ 64)
unfolding frame_and_send_manifest
frame_and_send_manifest-Delivers b pages bytes chunked m v e =
    let body = manifest_body pages bytes in
    let d =
      send_frame-Delivers b chunked (frame_header typ_manifest 0 m.next_seq 0 body) body
        (take_seq m) v e in
    logged typ_manifest m.next_seq 0 (count-Delivers mig_manifests 1 d)

-- What a page frame carries is the page: its payload expands to it if the flag says so, whatever
-- follows it, and is the page itself if not. A compressed payload is shorter than a page.
pub page_payload-decodes :
    (compress : Bool) (bytes rest : List ℕ)
    → length bytes ≡ 4096
    → let (flags, payload) = page_payload compress bytes in
      ((flags ≡ flag_comp)
        × (expand 4096 (payload ++ rest) [] ≡ (page bytes, rest))
        × (length payload < 4096))
      ⊎ ((flags ≡ 0) × (payload ≡ bytes))
unfolding page_payload
page_payload-decodes false bytes rest h = inr (refl, refl)
page_payload-decodes true bytes rest h = elim (Option-cases (rle_compress_page 8192 bytes)) [
  | inl e ↦ rw e (inr (refl, refl))
  | inr (code, e) ↦ rw e (elim (Bool-cases (ltb (length code) 4096)) [
    | inl short ↦
        rw short
          (inl (refl, rw h at (expand-rle_compress_page 8192 bytes code rest e), ltb→lt _ _ short))
    | inr long ↦ rw long (inr (refl, refl))
  ])
]
