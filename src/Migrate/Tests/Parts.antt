-- ===== src/Migrate/Tests/Parts.antt =====
-- Runs of the codes, the cursor and the scan of src/migrate/mod.rs at concrete inputs.
use zerovisor.Base.{none, ◌≡◌, refl, true, false, [], ◌∷◌, some, arith, ◌≤◌}
use zerovisor.Migrate.Bitmap.{DirtyBitmap}
use zerovisor.Migrate.Scan.{ept_bits, scan_loop}
use zerovisor.Migrate.Scan.Progress.{scan-reaches}
use zerovisor.Util.Crc32.{crc32}
use zerovisor.Migrate.Codec.{FrameHeader, typ_page}
use zerovisor.Migrate.Codec.Roundtrip.{Fits}
use zerovisor.Migrate.State.{Machine, buffer, virtio}
use zerovisor.Migrate.Settings.{cfg_save, cfg_load}
use zerovisor.Migrate.Settings.Saved.{IsSettings, with_settings, cfg_load-cfg_save}
use zerovisor.Migrate.Cursor.{Cursor, checksum}
use zerovisor.Migrate.Cursor.Laws.{IsReader}
use zerovisor.Migrate.Cursor.Checksum.{checksum-eq-crc32}
use zerovisor.Migrate.Rle.{rle_compress_page, compress_loop, run_from}

two_runs : rle_compress_page 8192 (7 ∷ 7 ∷ 9 ∷ []) ≡ some (7 ∷ 2 ∷ 9 ∷ 1 ∷ [])
unfolding rle_compress_page compress_loop run_from
two_runs = refl

abbrev small_header : FrameHeader
small_header = record {
  ver = 1;
  typ = typ_page;
  flags = 1;
  seq = 70000;
  page_index = 3;
  payload_len = 260;
  crc = 123456;
}

small_header-Fits : Fits small_header
small_header-Fits = omega arith

-- Before 8 and 9 of `wrapped`.
abbrev reading : Cursor
reading = record { mem = 9 ∷ 7 ∷ 8 ∷ []; cap = 3; pos = 2; remaining = 2 }

reading-IsReader : IsReader reading
reading-IsReader = omega arith

checksum-eq-crc32_example : checksum reading 2 ≡ crc32 (8 ∷ 9 ∷ [])
checksum-eq-crc32_example = checksum-eq-crc32 reading 2 reading-IsReader (omega arith) (omega arith)

abbrev bitmap : DirtyBitmap
bitmap = record { base = 0 ∷ 0 ∷ []; bytes = 2; pages = 1 }

scan-reaches_example :
    0x200000
    ≤ (scan_loop 513 ept_bits true 0x200000 0x5000
        (record { addr = 0; words = λ a. 0; bitmap = bitmap; dirty_pages = 0 })).addr
scan-reaches_example =
    scan-reaches ept_bits true 0x200000 0x5000
      (record { addr = 0; words = λ a. 0; bitmap = bitmap; dirty_pages = 0 }) (omega arith) refl

abbrev set_up : Machine
set_up = record {
  chan = none;
  next_seq = 70000;
  chunk = 0;
  tx_log = [];
  tx_widx = 0;
  dest_mac = 2 ∷ 0 ∷ 0 ∷ 0 ∷ 0 ∷ 1 ∷ [];
  mtu = 9000;
  ether_type = 0x88B5;
  resend_sink = virtio;
  auto_ack = true;
  auto_nak = false;
  default_sink = buffer;
  last_seq = 0;
  counts = [];
  lines = [];
}

set_up-IsSettings : IsSettings set_up
set_up-IsSettings = omega arith

cfg_load-cfg_save_example :
    let ((cfg, net), _) = cfg_save set_up in
    cfg_load (some cfg) (some net) (record set_up { mtu = 576; auto_nak = true })
    ≡ with_settings set_up (record set_up { mtu = 576; auto_nak = true })
cfg_load-cfg_save_example = cfg_load-cfg_save 2 0 0 0 0 1 set_up _ set_up-IsSettings refl
