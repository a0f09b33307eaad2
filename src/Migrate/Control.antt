-- ===== src/Migrate/Control.antt =====
-- `chan_handle_ctrl` of src/migrate/mod.rs: it looks for control frames in the channel buffer and
-- answers them. What it prints is left out.
use zerovisor.Base.{
  ℕ, zero, suc, ◌+◌, ◌-◌, true, false, ◌&&◌, ◌||◌, List, ◌++◌, Option, none, some, take, length,
  replicate, ltb, leb, ◌==◌, if◌then◌else◌, get_or,
}
use zerovisor.Migrate.State.{Machine, mig_resend_triggers}
use zerovisor.Migrate.Codec.{
  magic, header_size, typ_ctrl, ctrl_ack, ctrl_nak, payload_len_of, le_u32, slice,
}
use zerovisor.Migrate.Cursor.{Cursor, read_into, skip}
use zerovisor.Migrate.Sender.{count}
use zerovisor.Migrate.Sink.{send_ctrl, resend_from}
use zerovisor.Migrate.Verify.{cursor_of, same_bytes, past_read, past_skip, refresh}

pub record Control : Type 0 where
  pub cur : Cursor
  pub handled : ℕ
  pub state : Machine

-- What a control message does: a NAK resends from its sequence number on, and either is answered
-- in kind where that is switched on.
unfoldable pub act : (ℕ → ℕ) → (code seq : ℕ) → Machine → Machine
unfolding resend_from send_ctrl
act phys code seq m =
    let sink = m.resend_sink in
    let (_, m1) = resend_from phys seq 0 false sink (count mig_resend_triggers 1 m) in
    let m2 = if m.auto_nak then send_ctrl false seq sink m1 else m1 in
    let m3 = if code == ctrl_nak then m2 else m in
    if code == ctrl_ack
    then (if m3.auto_ack then send_ctrl true seq m3.resend_sink m3 else m3)
    else m3

-- The body of eight bytes, the first `n` of them read.
abbrev pub body_of : List ℕ → List ℕ
body_of bytes = bytes ++ replicate (8 - length bytes) 0

abbrev pub handle_body :
    (ℕ → ℕ) → (payload_len n : ℕ) → Control → Option (List ℕ × Cursor) → Option Control
handle_body phys payload_len n s none = none
handle_body phys payload_len n s (some (bytes, c)) =
    let c' = if ltb n payload_len then past_skip c (skip c (payload_len - n)) else c in
    let code = get_or (body_of bytes) 0 0 in
    let m = act phys code (le_u32 (slice (body_of bytes) 1 5)) s.state in
    some (record { cur = refresh m c'; handled = s.handled + 1; state = m })

-- The frame whose header bytes were read at the cursor.
unfoldable pub handle_frame : (ℕ → ℕ) → List ℕ → Control → Option Control
unfolding act
handle_frame phys hdr s =
    let payload_len = payload_len_of hdr in
    let c = past_read s.cur (read_into s.cur header_size) in
    let n = if leb payload_len 8 then payload_len else 8 in
    if ltb c.remaining payload_len
    then none
    else if get_or hdr 5 0 == typ_ctrl
    then handle_body phys payload_len n (record s { cur = c }) (read_into c n)
    else some (record s { cur = past_skip c (skip c payload_len) })

abbrev pub handle_header : (ℕ → ℕ) → Control → Option (List ℕ × Cursor) → Option Control
handle_header phys s none = none
handle_header phys s (some (hdr, _)) =
    if same_bytes (take 4 hdr) magic
    then handle_frame phys hdr s
    else some (record s { cur = past_skip s.cur (skip s.cur 1) })

-- The body of the loop; `none` is `break`.
unfoldable pub handle_step : (ℕ → ℕ) → Control → Option Control
unfolding handle_frame same_bytes
handle_step phys s = handle_header phys s (read_into s.cur 32)

unfoldable pub handle_loop : (ℕ → ℕ) → ℕ → ℕ → Control → Control
unfolding handle_step
handle_loop phys zero limit s = s
handle_loop phys (suc fuel) limit s =
    let rest : Control = elim (handle_step phys s) [
      | none ↦ s
      | some s' ↦ handle_loop phys fuel limit s'
    ] in
    if leb header_size s.cur.remaining && (limit == 0 || ltb s.handled limit) then rest else s

-- Each round moves the cursor by at least one byte. The length of the contents is read at the
-- start: what is sent meanwhile is not handled.
unfoldable pub chan_handle_ctrl : (ℕ → ℕ) → ℕ → Machine → Machine
unfolding handle_loop cursor_of
chan_handle_ctrl phys limit m = elim m.chan [
  | none ↦ m
  | some b ↦
      (handle_loop phys b.len limit (record { cur = cursor_of b; handled = 0; state = m })).state
]
