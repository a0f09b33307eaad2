-- ===== src/Migrate/Sender.antt =====
-- Framing and sending in src/migrate/mod.rs: the writers, `write_chunked`, the frames and the
-- transmit log.
pub mod Writers
pub mod Page
use zerovisor.Util.Crc32.{crc32_ptr}
use zerovisor.Base.{
  ℕ, zero, suc, ◌+◌, ◌-◌, ◌%◌, ◌^◌, min, Bool, true, false, List, ◌∷◌, ◌++◌, Option, none, some,
  length, get_or, set, take, drop, ltb, ◌==◌, if◌then◌else◌, tabulate, u32, bit_and, not,
}
use zerovisor.Migrate.Channel.{Buffer, chan_write}
use zerovisor.Migrate.State.{
  Machine, Counter, mig_frames, mig_compressed_pages, mig_raw_pages, mig_manifests, mig_ctrl_frames,
  mig_acks, mig_naks, mig_cb_written_bytes, mig_net_tx_bytes, mig_net_tx_frames,
}
use zerovisor.Migrate.Codec.{
  FrameHeader, header_bytes, typ_page, typ_manifest, typ_ctrl, ctrl_ack, ctrl_nak, flag_comp,
  byte_of,
}
use zerovisor.Migrate.Rle.{rle_compress_page}

-- `Counter::new(&c).add(n)`
abbrev pub count : Counter → ℕ → Machine → Machine
count c n m = record m { counts = (c, n) ∷ m.counts }

-- An implementation of `MigrWriter::write`: the state after it and the bytes it reports.
abbrev pub Writer : Type 0
Writer = List ℕ → Machine → Machine × ℕ

-- `chan_write` with the counter that it keeps, by whether there is a buffer.
unfoldable pub write_channel : Option Buffer → Writer
write_channel none src m = (m, 0)
write_channel (some b) src m =
    let (g, written) = chan_write (some b) src in
    (count mig_cb_written_bytes written (record m { chan = g }), written)

-- `BufferWriter`
unfoldable pub buffer_writer : Writer
unfolding write_channel
buffer_writer src m = write_channel m.chan src m

-- `NullWriter`
unfoldable pub null_writer : Writer
null_writer src m = (m, 0)

abbrev pub net_get_mtu : Machine → ℕ
net_get_mtu m = if m.mtu == 0 then 1500 else m.mtu

-- `SnpWriter` of a build without the `snp` feature: it only counts the frames that it would
-- cut. The loop takes at least one byte a round.
unfoldable pub snp_loop : ℕ → ℕ → ℕ → ℕ → Machine → Machine × ℕ
snp_loop zero mtu left frames m = (m, frames)
snp_loop (suc fuel) mtu left frames m =
    let n = if ltb mtu left then mtu else left in
    let rest = snp_loop fuel mtu (left - n) (frames + 1) (count mig_net_tx_bytes n m) in
    if left == 0 then (m, frames) else rest

unfoldable pub snp_writer : Writer
unfolding snp_loop
snp_writer src m =
    let (m', frames) = snp_loop (length src) (net_get_mtu m) (length src) 0 m in
    (if ltb 0 frames then count mig_net_tx_frames frames m' else m', length src)

abbrev pub get_chunk_size : Machine → ℕ
get_chunk_size m = if m.chunk == 0 then 1500 else m.chunk

abbrev pub set_chunk_size : ℕ → Machine → Machine
set_chunk_size bytes m = record m { chunk = if bytes == 0 then 1500 else bytes }

-- The loop of `write_chunked` over the bytes that are left; a round takes at least one.
unfoldable pub chunks_loop : ℕ → ℕ → Writer → List ℕ → ℕ → Machine → Machine × ℕ
chunks_loop zero chunk w src written m = (m, written)
chunks_loop (suc fuel) chunk w src written m =
    let n = min chunk (length src) in
    let (m', k) = w (take n src) m in
    let rest = chunks_loop fuel chunk w (drop n src) (written + k) m' in
    if length src == 0 then (m, written) else rest

unfoldable pub write_chunked : Writer → List ℕ → Machine → Machine × ℕ
unfolding chunks_loop
write_chunked w src m = chunks_loop (length src) (get_chunk_size m) w src 0 m

-- `if chunked { write_chunked(writer, bytes) } else { writer.write(bytes) }`
unfoldable pub send_bytes : Writer → Bool → List ℕ → Machine → Machine
unfolding write_chunked
send_bytes w chunked src m = if chunked then (write_chunked w src m).0 else (w src m).0

abbrev pub tx_log_cap : ℕ
tx_log_cap = 1024

unfoldable pub tx_log_append : ℕ → ℕ → ℕ → Machine → Machine
tx_log_append kind seq page_index m = record m {
  tx_log =
      set m.tx_log (m.tx_widx % tx_log_cap)
        (record { kind = kind; seq = seq; page_index = page_index });
  tx_widx = (m.tx_widx + 1) % 2 ^ 64;
}

-- A page of guest memory, identity-mapped.
abbrev pub page_at : (ℕ → ℕ) → ℕ → List ℕ
page_at phys pa = tabulate 4096 (λ i. phys (pa + i))

-- `flags` and the payload: the code of the page where that is asked for and shorter.
abbrev pub shorter : List ℕ → Option (List ℕ) → ℕ × List ℕ
shorter page none = (0, page)
shorter page (some code) = if ltb (length code) 4096 then (flag_comp, code) else (0, page)

unfoldable pub page_payload : Bool → List ℕ → ℕ × List ℕ
page_payload compress page =
    if compress then shorter page (rle_compress_page 8192 page) else (0, page)

-- The header of a frame, with the checksum of its payload.
unfoldable pub frame_header : ℕ → ℕ → ℕ → ℕ → List ℕ → FrameHeader
frame_header typ flags seq page_index payload = record {
  ver = 1;
  typ = typ;
  flags = flags;
  seq = seq;
  page_index = page_index;
  payload_len = u32 (length payload);
  crc = crc32_ptr (λ i. get_or payload i 0) (length payload);
}

-- The sequence number is taken and advanced before anything is sent.
abbrev pub take_seq : Machine → Machine
take_seq m = record m { next_seq = u32 (m.next_seq + 1) }

-- Header first, then the payload.
unfoldable pub send_frame : Writer → Bool → FrameHeader → List ℕ → Machine → Machine
unfolding send_bytes
send_frame w chunked hdr payload m =
    send_bytes w chunked payload (send_bytes w chunked (header_bytes hdr) m)

unfoldable pub count_page : Bool → Machine → Machine
count_page true m = count mig_compressed_pages 1 m
count_page false m = count mig_raw_pages 1 m

-- `frame_and_send_page` for the page `bytes`; it returns whether the page went compressed and
-- the payload's length.
unfoldable pub frame_and_send_page :
    Writer → ℕ → List ℕ → Bool → Bool → Machine → Machine × Bool × ℕ
unfolding page_payload frame_header send_frame count_page tx_log_append
frame_and_send_page w page_index bytes compress chunked m =
    let (flags, payload) = page_payload compress bytes in
    let seq = m.next_seq in
    let hdr = frame_header typ_page flags seq page_index payload in
    let m1 = send_frame w chunked hdr payload (take_seq m) in
    let m2 = count mig_frames 1 m1 in
    let compressed = not (bit_and flags flag_comp == 0) in
    (tx_log_append typ_page seq page_index (count_page compressed m2), compressed, length payload)

-- Pages and bytes, eight bytes each, lowest first.
abbrev pub manifest_body : ℕ → ℕ → List ℕ
manifest_body pages bytes = tabulate 8 (byte_of pages) ++ tabulate 8 (byte_of bytes)

unfoldable pub frame_and_send_manifest : Writer → ℕ → ℕ → Bool → Machine → Machine
unfolding frame_header send_frame tx_log_append
frame_and_send_manifest w pages bytes chunked m =
    let body = manifest_body pages bytes in
    let seq = m.next_seq in
    let m1 = send_frame w chunked (frame_header typ_manifest 0 seq 0 body) body (take_seq m) in
    tx_log_append typ_manifest seq 0 (count mig_manifests 1 m1)

abbrev pub ctrl_body : ℕ → ℕ → List ℕ
ctrl_body code seq_to_ref = code ∷ tabulate 4 (byte_of seq_to_ref)

-- Control frames are always chunked, and stay out of the transmit log.
unfoldable pub frame_and_send_ctrl : Writer → ℕ → ℕ → Machine → Machine
unfolding frame_header send_frame
frame_and_send_ctrl w code seq_to_ref m =
    let body = ctrl_body code seq_to_ref in
    let m1 = send_frame w true (frame_header typ_ctrl 0 m.next_seq 0 body) body (take_seq m) in
    let m2 = count mig_ctrl_frames 1 m1 in
    let m3 = if code == ctrl_ack then count mig_acks 1 m2 else m2 in
    if code == ctrl_nak then count mig_naks 1 m3 else m3
