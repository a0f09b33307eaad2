-- ===== src/Migrate/Sink.antt =====
-- The operations of src/migrate/mod.rs that choose a writer by the sink: `send_ctrl`,
-- `send_dirty_pages` and `resend_from`, in a build without the features `snp` and `virtio-net`.
use zerovisor.Util.Format.{u64_hex}
use zerovisor.Base.{
  ℕ, zero, suc, ◌+◌, ◌-◌, ◌*◌, ◌%◌, Bool, true, false, ◌||◌, not, List, [], ◌∷◌, ◌++◌, Option, none,
  some, length, get_or, take, drop, ltb, ◌==◌, if◌then◌else◌, tabulate, bit_xor, u64, ◌<<◌,
}
use zerovisor.Migrate.Bitmap.{DirtyBitmap, for_each_set}
use zerovisor.Migrate.State.{
  Machine, TxEntry, ExportSink, console, null, buffer, snp, virtio, mig_zero_skipped,
  mig_zero_bytes_saved, mig_hash_skipped, mig_hash_bytes_saved,
}
use zerovisor.Migrate.Codec.{typ_page, ctrl_ack, ctrl_nak, le_u64, header_size}
use zerovisor.Migrate.Sender.{
  Writer, count, buffer_writer, null_writer, snp_writer, page_at, frame_and_send_page,
  frame_and_send_manifest, frame_and_send_ctrl, tx_log_cap,
}

-- The bytes of a console line before its end: each in hexadecimal and a blank, in a line buffer
-- of 96 bytes.
unfoldable pub hex_line : List ℕ → List ℕ → List ℕ
hex_line line [] = line ++ (0x0D ∷ 0x0A ∷ [])
hex_line line (b ∷ bs) = hex_line (line ++ u64_hex b (96 - length line) ++ (0x20 ∷ [])) bs

-- Lines of up to 16 bytes; a round takes at least one byte.
unfoldable pub dump_lines : ℕ → List ℕ → List (List ℕ)
unfolding hex_line
dump_lines zero src = []
dump_lines (suc fuel) [] = []
dump_lines (suc fuel) (b ∷ bs) = hex_line [] (take 16 (b ∷ bs)) ∷ dump_lines fuel (drop 16 (b ∷ bs))

-- `ConsoleWriter`
unfoldable pub console_writer : Writer
unfolding dump_lines
console_writer src m = (record m { lines = m.lines ++ dump_lines (length src) src }, length src)

-- The writer of each sink, and whether messages are cut into chunks for it.
unfoldable pub writer_of : ExportSink → Writer
writer_of console = console_writer
writer_of null = null_writer
writer_of buffer = buffer_writer
writer_of snp = snp_writer
writer_of virtio = null_writer

unfoldable pub is_chunked : ExportSink → Bool
is_chunked console = true
is_chunked null = true
is_chunked buffer = true
is_chunked snp = false
is_chunked virtio = true

unfoldable pub send_ctrl : Bool → ℕ → ExportSink → Machine → Machine
unfolding writer_of
send_ctrl ack seq_to_ref sink m =
    frame_and_send_ctrl (writer_of sink) (if ack then ctrl_ack else ctrl_nak) seq_to_ref m

-- The `i`-th 64-bit word of the page at `pa`.
abbrev pub word_at : (ℕ → ℕ) → ℕ → ℕ → ℕ
word_at phys pa i = le_u64 (tabulate 8 (λ j. phys (pa + i * 8 + j)))

unfoldable pub all_zero : (ℕ → ℕ) → ℕ → ℕ → ℕ → Bool
all_zero phys pa zero i = true
all_zero phys pa (suc left) i =
    let rest = all_zero phys pa left (i + 1) in if not (word_at phys pa i == 0) then false else rest

-- `h ^= v; h = h.wrapping_mul(1099511628211)`
unfoldable pub page_hash : (ℕ → ℕ) → ℕ → ℕ → ℕ → ℕ → ℕ
page_hash phys pa zero i h = h
page_hash phys pa (suc left) i h =
    page_hash phys pa left (i + 1) (u64 (bit_xor h (word_at phys pa i) * 1099511628211))

unfoldable pub page_skip_reason : (ℕ → ℕ) → ℕ → Option ℕ
unfolding all_zero page_hash
page_skip_reason phys pa =
    if all_zero phys pa 512 0
    then some 1
    else if page_hash phys pa 512 0 1469598103934665603 == 0
    then some 2
    else none

-- What a skipped page is counted as.
unfoldable pub count_skip : ℕ → Machine → Machine
count_skip r m =
    if r == 1
    then count mig_zero_bytes_saved 4096 (count mig_zero_skipped 1 m)
    else count mig_hash_bytes_saved 4096 (count mig_hash_skipped 1 m)

-- Frames or pages sent, and bytes.
pub record Totals : Type 0 where
  pub frames : ℕ
  pub bytes : ℕ

abbrev pub add_frame : ℕ → Totals → Totals
add_frame n t = record { frames = t.frames + 1; bytes = t.bytes + (header_size + n) }

-- The page of one set bit; `skips` says whether the sink looks for pages to leave out.
unfoldable pub send_page :
    (ℕ → ℕ) → Writer → Bool → Bool → Bool → ℕ → Totals → Machine → Totals × Machine
unfolding page_skip_reason count_skip
send_page phys w skips compress chunked idx t m =
    let pa = u64 (idx << 12) in
    let (m', _, n) = frame_and_send_page w idx (page_at phys pa) compress chunked m in
    let sent : Totals × Machine = (add_frame n t, m') in
    elim (if skips then page_skip_reason phys pa else none) [
      | some r ↦ (t, count_skip r m)
      | none ↦ sent
    ]

unfoldable pub send_pages :
    (ℕ → ℕ) → Writer → Bool → Bool → Bool → List ℕ → Totals → Machine → Totals × Machine
unfolding send_page
send_pages phys w skips compress chunked [] t m = (t, m)
send_pages phys w skips compress chunked (idx ∷ rest) t m =
    let (t', m') = send_page phys w skips compress chunked idx t m in
    send_pages phys w skips compress chunked rest t' m'

-- Only the arm of `Virtio` without its feature sends pages without looking at them.
unfoldable pub skips_pages : ExportSink → Bool
skips_pages console = true
skips_pages null = true
skips_pages buffer = true
skips_pages snp = true
skips_pages virtio = false

abbrev pub no_totals : Totals
no_totals = record { frames = 0; bytes = 0 }

-- With no tracker nothing is sent. Frames and pages are counted alike; the trailing manifest
-- names the totals.
unfoldable pub send_dirty_pages :
    (ℕ → ℕ) → Option DirtyBitmap → Bool → ExportSink → Machine → Totals × Machine
unfolding writer_of is_chunked skips_pages send_pages
send_dirty_pages phys none compress sink m = (no_totals, m)
send_dirty_pages phys (some b) compress sink m =
    let w = writer_of sink in
    let (t, m') =
      send_pages phys w (skips_pages sink) compress (is_chunked sink) (for_each_set b) no_totals
        m in
    (t, frame_and_send_manifest w t.frames t.bytes (is_chunked sink) m')

abbrev pub no_entry : TxEntry
no_entry = record { kind = 0; seq = 0; page_index = 0 }

-- One entry of the transmit log.
unfoldable pub resend_entry :
    (ℕ → ℕ) → Writer → ℕ → Bool → Bool → TxEntry → Totals → Machine → Totals × Machine
resend_entry phys w from_seq compress chunked e t m =
    let (m', _, n) =
      frame_and_send_page w e.page_index (page_at phys (u64 (e.page_index << 12))) compress chunked
        m in
    let sent : Totals × Machine = (add_frame n t, m') in
    if ltb e.seq from_seq then (t, m) else if e.kind == typ_page then sent else (t, m)

-- The loop from `idx` on, with `left` entries to go: `end` is read before it, but the log is
-- written while it runs.
unfoldable pub resend_loop :
    ℕ → (ℕ → ℕ) → Writer → ℕ → ℕ → Bool → Bool → ℕ → Totals → Machine → Totals × Machine
unfolding resend_entry
resend_loop zero phys w from_seq max_count compress chunked idx t m = (t, m)
resend_loop (suc left) phys w from_seq max_count compress chunked idx t m =
    let e = get_or m.tx_log (idx % tx_log_cap) no_entry in
    let (t', m') = resend_entry phys w from_seq compress chunked e t m in
    let rest = resend_loop left phys w from_seq max_count compress chunked (idx + 1) t' m' in
    if max_count == 0 || ltb t.frames max_count then rest else (t, m)

unfoldable pub resend_from : (ℕ → ℕ) → ℕ → ℕ → Bool → ExportSink → Machine → Totals × Machine
unfolding writer_of is_chunked resend_loop
resend_from phys from_seq max_count compress sink m =
    let w = writer_of sink in
    let idx = if ltb tx_log_cap m.tx_widx then m.tx_widx - tx_log_cap else 0 in
    let (t, m') =
      resend_loop (m.tx_widx - idx) phys w from_seq max_count compress (is_chunked sink) idx
        no_totals m in
    (t, frame_and_send_manifest w t.frames t.bytes (is_chunked sink) m')
