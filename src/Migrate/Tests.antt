-- ===== src/Migrate/Tests.antt =====
-- Runs of src/migrate/mod.rs at concrete inputs.
pub mod Parts
pub mod Copies
use zerovisor.Base.{
  ◌*◌, ◌%◌, ℕ, ◌^◌, ◌<◌, ◌≡◌, refl, true, false, List, [], ◌∷◌, ◌++◌, none, some, arith, length,
  replicate, take, set, length-replicate, ◌⊎◌, ◌≤◌,
}
use zerovisor.Migrate.Bitmap.{DirtyBitmap}
use zerovisor.Migrate.Scan.{ept_bits, npt_bits, scan_loop, scan}
use zerovisor.Migrate.Scan.Progress.{scan-reaches}
use zerovisor.Migrate.Scan.ReadOnly.{scan-keeps}
use zerovisor.Migrate.Session.{Page, IsPage, send_each, session-verified}
use zerovisor.Util.Crc32.{crc32}
use zerovisor.Migrate.Channel.{Buffer, chan_write, chan_consume}
use zerovisor.Migrate.Channel.Ring.{IsValid, contents, pushes, pushes-IsValid, contents-pushes}
use zerovisor.Migrate.Channel.Contents.{chan_write-contents, chan_consume-contents}
use zerovisor.Migrate.State.{Machine, buffer}
use zerovisor.Migrate.Codec.{
  FrameHeader, typ_page, typ_manifest, header_bytes, header_size, magic, flag_comp, flags_of,
  seq_of, page_index_of, payload_len_of, crc_of,
}
use zerovisor.Migrate.Verify.{chan_verify}
use zerovisor.Migrate.Verify.Frames.{Frame, IsSendable, stream, bytes_of}
use zerovisor.Migrate.Verify.Counts.{chan_verify-counts}
use zerovisor.Migrate.Codec.Roundtrip.{Fits, header_fields}
use zerovisor.Migrate.Cursor.{Cursor, read_into, checksum}
use zerovisor.Migrate.Cursor.Laws.{IsReader, read_into-eq}
use zerovisor.Migrate.Cursor.Checksum.{checksum-eq-crc32}
use zerovisor.Migrate.Rle.{rle_compress_page, compress_loop, run_from, expand, page}
use zerovisor.Migrate.Rle.Roundtrip.{
  expand-rle_compress_page, rle_compress_page_total, rle_compress_page_long,
}
use zerovisor.Migrate.Sender.{
  page_payload, frame_and_send_page, buffer_writer, frame_and_send_manifest, manifest_body,
  write_chunked,
}
use zerovisor.Migrate.Sender.Writers.{Delivers, write_chunked-Delivers}
use zerovisor.Migrate.Sender.Page.{
  frame_bytes, frame_and_send_page-Delivers, frame_and_send_manifest-Delivers, page_payload-decodes,
}
use zerovisor.Migrate.Replay.{replay}
use zerovisor.Migrate.Replay.Header.{replay-lost}

-- 8 and 9, round the end of three bytes.
abbrev wrapped : Buffer
wrapped = record { mem = 9 ∷ 7 ∷ 8 ∷ []; cap = 3; wpos = 1; len = 2 }

wrapped-IsValid : IsValid wrapped
wrapped-IsValid = omega arith

chan_write-contents_example :
    (b' : Buffer) × (chan_write (some wrapped) (1 ∷ 2 ∷ []) ≡ (some b', 2))
    × IsValid b'
    × (b'.cap ≡ 3)
    × (contents b' ≡ 9 ∷ 1 ∷ 2 ∷ [])
chan_write-contents_example = chan_write-contents wrapped (1 ∷ 2 ∷ []) wrapped-IsValid

chan_consume-contents_example :
    (b' : Buffer) × (chan_consume (some wrapped) 1 ≡ some b') × IsValid b' × (contents b' ≡ 9 ∷ [])
chan_consume-contents_example = chan_consume-contents wrapped 1 wrapped-IsValid

abbrev roomy : Buffer
roomy = record { mem = replicate 128 0; cap = 128; wpos = 0; len = 0 }

roomy-IsValid : IsValid roomy
roomy-IsValid = omega arith

abbrev idle : Machine
idle = record {
  chan = none;
  next_seq = 5;
  chunk = 0;
  tx_log = [];
  tx_widx = 0;
  dest_mac = [];
  mtu = 0;
  ether_type = 0;
  resend_sink = buffer;
  auto_ack = true;
  auto_nak = true;
  default_sink = buffer;
  last_seq = 0;
  counts = [];
  lines = [];
}

abbrev small_frame : Frame
small_frame = record { typ = 1; flags = 0; seq = 7; page_index = 3; payload = 1 ∷ 2 ∷ 3 ∷ 4 ∷ [] }

small_frame-IsSendable : IsSendable small_frame
small_frame-IsSendable = omega arith

abbrev carrying : Buffer
carrying = pushes roomy (stream (small_frame ∷ small_frame ∷ []))

carrying-IsValid : IsValid carrying
carrying-IsValid = pushes-IsValid (stream (small_frame ∷ small_frame ∷ [])) roomy-IsValid

contents-carrying : contents carrying ≡ stream (small_frame ∷ small_frame ∷ [])
unfolding header_bytes
contents-carrying = contents-pushes roomy (stream (small_frame ∷ small_frame ∷ [])) roomy-IsValid

carrying_fits : carrying.len < 2 ^ 64
unfolding pushes header_bytes
carrying_fits = omega arith

chan_verify-counts_example :
    let out = chan_verify 0 false carrying (record idle { chan = some carrying }) in
    (out.frames ≡ 2) × (out.ok ≡ 2) × (out.bad ≡ 0)
chan_verify-counts_example =
    chan_verify-counts (small_frame ∷ small_frame ∷ []) carrying
      (record idle { chan = some carrying }) carrying-IsValid carrying_fits refl
      (small_frame-IsSendable, (small_frame-IsSendable, tt)) contents-carrying

-- A channel with one frame in it.
abbrev one_frame : Buffer
one_frame = pushes roomy (bytes_of small_frame)

one_frame_fits : one_frame.len < 2 ^ 64
unfolding pushes header_bytes
one_frame_fits = omega arith

contents-one_frame : contents one_frame ≡ bytes_of small_frame
unfolding header_bytes
contents-one_frame = contents-pushes roomy (bytes_of small_frame) roomy-IsValid

replay-lost_example :
    ((replay 0 (replicate 4096 0) one_frame idle).pages_done ≡ 0)
    × ((replay 0 (replicate 4096 0) one_frame idle).errors ≡ 0)
replay-lost_example =
    replay-lost small_frame one_frame (replicate 4096 0) 0 idle
      (pushes-IsValid (bytes_of small_frame) roomy-IsValid) one_frame_fits small_frame-IsSendable
      contents-one_frame

abbrev linked : Machine
linked = record idle { chan = some roomy }

-- With a log of its length, whose index has come round once.
abbrev logging : Machine
logging = record linked {
  tx_log = replicate 1024 (record { kind = 0; seq = 0; page_index = 0 });
  tx_widx = 1027;
}

frame_and_send_page-Delivers_example :
    let (flags, payload) = page_payload false (1 ∷ 2 ∷ []) in
    let (m', _, n) = frame_and_send_page buffer_writer 3 (1 ∷ 2 ∷ []) false true logging in
    (m'.chan ≡ some (pushes roomy (frame_bytes typ_page flags 5 3 payload)))
    × (m'.next_seq ≡ 6)
    × (m'.tx_log ≡ set logging.tx_log 3 (record { kind = typ_page; seq = 5; page_index = 3 }))
    × (m'.tx_widx ≡ 1028)
    × (n ≡ length payload)
frame_and_send_page-Delivers_example =
    frame_and_send_page-Delivers roomy 3 (1 ∷ 2 ∷ []) false true logging roomy-IsValid refl

abbrev zero_page : List ℕ
zero_page = replicate 4096 0

page_payload-decodes_example :
    let (flags, payload) = page_payload true zero_page in
    ((flags ≡ flag_comp)
      × (expand 4096 (payload ++ (9 ∷ [])) [] ≡ (page zero_page, 9 ∷ []))
      × (length payload < 4096))
    ⊎ ((flags ≡ 0) × (payload ≡ zero_page))
page_payload-decodes_example =
    page_payload-decodes true zero_page (9 ∷ []) (length-replicate {A = ℕ} 4096 0)

-- A page of zeros, and an empty channel of two pages.
abbrev zeros : Page
zeros = record { index = 9; bytes = zero_page }

zeros-IsPage : IsPage zeros
zeros-IsPage = record { index_fits = omega arith; size = length-replicate {A = ℕ} 4096 0 }

abbrev two_pages : Buffer
two_pages = record { mem = replicate 8192 0; cap = 8192; wpos = 0; len = 0 }

two_pages-IsValid : IsValid two_pages
two_pages-IsValid = record {
  nonempty = omega arith;
  storage = length-replicate {A = ℕ} 8192 0;
  wpos_in = omega arith;
  len_in = omega arith;
}

abbrev open_channel : Machine
open_channel = record idle { chan = some two_pages }

session-verified_example :
    let m' = send_each true true (zeros ∷ []) open_channel in
    (b' : Buffer) × (m'.chan ≡ some b')
    × ((chan_verify 0 false b' m').frames ≡ 1)
    × ((chan_verify 0 false b' m').ok ≡ 1)
    × ((chan_verify 0 false b' m').bad ≡ 0)
session-verified_example =
    session-verified true true (zeros ∷ []) two_pages open_channel two_pages-IsValid refl refl
      (omega arith) (zeros-IsPage, tt) (omega arith) (omega arith)
