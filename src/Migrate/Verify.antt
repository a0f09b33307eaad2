-- ===== src/Migrate/Verify.antt =====
-- `chan_verify_ex` of src/migrate/mod.rs: it walks the frames in the channel buffer, checks
-- their checksums and their order, and may answer with control frames. What it prints is left out.
pub mod Frames
pub mod Counts
use zerovisor.Base.{
  ℕ, zero, suc, ◌+◌, ◌-◌, ◌%◌, Bool, true, false, ◌&&◌, ◌||◌, not, List, [], ◌∷◌, Option, none,
  some, take, ltb, leb, ◌==◌, if◌then◌else◌, u32,
}
use zerovisor.Migrate.Channel.{Buffer}
use zerovisor.Migrate.State.{
  Machine, mig_rx_bytes, mig_rx_frames_ok, mig_rx_frames_bad, mig_dup_frames, mig_missing_frames,
  mig_ctrl_auto_ack_sent, mig_ctrl_auto_nak_sent,
}
use zerovisor.Migrate.Codec.{magic, header_size, seq_of, payload_len_of, crc_of}
use zerovisor.Migrate.Cursor.{Cursor, read_into, skip, checksum}
use zerovisor.Migrate.Sender.{count}
use zerovisor.Migrate.Sink.{send_ctrl}

-- The cursor at the oldest byte of the buffer.
unfoldable pub cursor_of : Buffer → Cursor
cursor_of b = record {
  mem = b.mem;
  cap = b.cap;
  pos = if b.len == 0 then 0 else (b.wpos + b.cap - b.len) % b.cap;
  remaining = b.len;
}

-- `&a[..] == &b[..]`
unfoldable pub same_bytes : List ℕ → List ℕ → Bool
same_bytes [] [] = true
same_bytes [] (y ∷ ys) = false
same_bytes (x ∷ xs) [] = false
same_bytes (x ∷ xs) (y ∷ ys) = x == y && same_bytes xs ys

-- A read or a skip whose result is not looked at: the cursor moves if it succeeds.
abbrev pub past_read : Cursor → Option (List ℕ × Cursor) → Cursor
past_read c none = c
past_read c (some (_, c')) = c'

abbrev pub past_skip : Cursor → Option Cursor → Cursor
past_skip c none = c
past_skip c (some c') = c'

-- The cursor points into the buffer, so it sees what is written there meanwhile.
abbrev pub refresh : Machine → Cursor → Cursor
refresh m c = elim m.chan [ none ↦ c | some b ↦ record c { mem = b.mem } ]

pub record Verify : Type 0 where
  pub cur : Cursor
  pub frames : ℕ
  pub ok : ℕ
  pub bad : ℕ
  pub expected_seq : ℕ
  pub state : Machine

-- `send_ctrl` to the configured sink, counted, if `auto_ctrl` is on.
abbrev pub answer : Bool → Bool → ℕ → Machine → Machine
answer auto_ctrl ack seq m =
    if auto_ctrl
    then count (if ack then mig_ctrl_auto_ack_sent else mig_ctrl_auto_nak_sent) 1
        (send_ctrl ack seq m.resend_sink m)
    else m

-- The ordering diagnostics: an old frame is acknowledged again, a gap is reported.
unfoldable pub order_frame : Bool → ℕ → ℕ → Machine → Machine
order_frame auto_ctrl expected seq m =
    if not (expected == 0) && seq == expected
    then m
    else if not (expected == 0) && ltb seq expected
    then answer auto_ctrl true seq (count mig_dup_frames 1 m)
    else if not (expected == 0) && ltb expected seq
    then answer auto_ctrl false expected (count mig_missing_frames 1 m)
    else m

-- What is recorded of a frame whose checksum is right or wrong.
unfoldable pub record_frame : Bool → Bool → ℕ → ℕ → ℕ → Machine → Machine
unfolding order_frame
record_frame auto_ctrl good expected seq payload_len m =
    let m1 = order_frame auto_ctrl expected seq m in
    let m2 = count mig_rx_bytes (header_size + payload_len) (record m1 { last_seq = seq }) in
    if good
    then count mig_rx_frames_ok 1 m2
    else answer auto_ctrl false seq (count mig_rx_frames_bad 1 m2)

-- The frame whose header bytes were read at the cursor.
unfoldable pub verify_frame : Bool → List ℕ → Verify → Option Verify
unfolding record_frame
verify_frame auto_ctrl hdr s =
    let seq = seq_of hdr in
    let payload_len = payload_len_of hdr in
    let cur = past_read s.cur (read_into s.cur header_size) in
    let good = checksum cur payload_len == crc_of hdr in
    let m = record_frame auto_ctrl good s.expected_seq seq payload_len s.state in
    if ltb cur.remaining payload_len
    then none
    else some (record {
      cur = refresh m (past_skip cur (skip cur payload_len));
      frames = s.frames + 1;
      ok = if good then s.ok + 1 else s.ok;
      bad = if good then s.bad else s.bad + 1;
      expected_seq = u32 (seq + 1);
      state = m;
    })

-- Skipping a byte, to look for a frame at the next.
abbrev pub realign : Verify → Option Cursor → Option Verify
realign s none = none
realign s (some c) = some (record s { cur = c })

abbrev pub verify_header : Bool → Verify → Option (List ℕ × Cursor) → Option Verify
verify_header auto_ctrl s none = none
verify_header auto_ctrl s (some (hdr, _)) =
    if same_bytes (take 4 hdr) magic then verify_frame auto_ctrl hdr s else realign s (skip s.cur 1)

-- The body of the loop; `none` is `break`. The header is peeked at with a slice of 32 bytes.
unfoldable pub verify_step : Bool → Verify → Option Verify
unfolding verify_frame same_bytes
verify_step auto_ctrl s = verify_header auto_ctrl s (read_into s.cur 32)

unfoldable pub verify_loop : ℕ → ℕ → Bool → Verify → Verify
unfolding verify_step
verify_loop zero limit auto_ctrl s = s
verify_loop (suc fuel) limit auto_ctrl s =
    let rest : Verify = elim (verify_step auto_ctrl s) [
      | none ↦ s
      | some s' ↦ verify_loop fuel limit auto_ctrl s'
    ] in
    if leb header_size s.cur.remaining && (limit == 0 || ltb s.frames limit) then rest else s

abbrev pub verify_start : Buffer → Machine → Verify
verify_start b m = record {
  cur = cursor_of b;
  frames = 0;
  ok = 0;
  bad = 0;
  expected_seq = 0;
  state = m;
}

-- Each round moves the cursor by at least one byte, so the length of the contents is fuel enough.
unfoldable pub chan_verify : ℕ → Bool → Buffer → Machine → Verify
unfolding verify_loop cursor_of
chan_verify limit auto_ctrl b m = verify_loop b.len limit auto_ctrl (verify_start b m)
