-- ===== src/Migrate/Replay.antt =====
-- `replay_to_buffer` of src/migrate/mod.rs: it walks the frames in the channel buffer as
-- `chan_verify_ex` does, and puts each page into a scratch page. What it prints is left out, and
-- whether the scratch page is there is an argument.
pub mod Header
use zerovisor.Base.{
  ℕ, zero, suc, ◌+◌, ◌-◌, min, ◌&&◌, ◌||◌, List, Option, none, some, take, ltb, leb, ◌==◌,
  if◌then◌else◌, get_or, replicate, bit_and,
}
use zerovisor.Migrate.Channel.{Buffer, copy_into}
use zerovisor.Migrate.State.{Machine, mig_replay_pages, mig_replay_bytes, mig_replay_errors}
use zerovisor.Migrate.Codec.{magic, header_size, flag_comp, flags_of, payload_len_of}
use zerovisor.Migrate.Cursor.{Cursor, read_into, skip}
use zerovisor.Migrate.Sender.{count}
use zerovisor.Migrate.Verify.{cursor_of, same_bytes, past_read, past_skip}

pub record Replay : Type 0 where
  pub cur : Cursor
  pub scratch : List ℕ
  pub pages_done : ℕ
  pub bytes_done : ℕ
  pub errors : ℕ
  pub state : Machine

-- What the copying of a payload comes to: the cursor, the scratch page and the new errors.
abbrev pub Copied : Type 0
Copied = Cursor × List ℕ × ℕ

-- The loop over a raw payload, at most 64 bytes a round, with fuel; `left` is `to_read - copied`.
unfoldable pub raw_loop : ℕ → ℕ → ℕ → Cursor → List ℕ → Copied
unfolding copy_into
raw_loop zero left copied c scratch = (c, scratch, 0)
raw_loop (suc fuel) left copied c scratch =
    let n = min left 64 in
    let rest : Copied = elim (read_into c n) [
      | none ↦ (c, scratch, 1)
      | some (bytes, c') ↦ raw_loop fuel (left - n) (copied + n) c' (copy_into scratch copied bytes)
    ] in
    if left == 0 then (c, scratch, 0) else rest

unfoldable pub replay_raw : ℕ → Cursor → List ℕ → Copied
unfolding raw_loop
replay_raw payload_len c scratch =
    let to_read = min 4096 payload_len in
    let (c', scratch', errors) = raw_loop to_read to_read 0 c scratch in
    if ltb to_read payload_len
    then (past_skip c' (skip c' (payload_len - to_read)), scratch', errors)
    else (c', scratch', errors)

-- The loop over the pairs of a compressed payload; a round takes two bytes.
unfoldable pub pairs_loop : ℕ → ℕ → Cursor → List ℕ → Copied
unfolding copy_into
pairs_loop zero wrote c scratch = (c, scratch, 0)
pairs_loop (suc fuel) wrote c scratch =
    let rest : Copied = elim (read_into c 2) [
      | none ↦ (c, scratch, 1)
      | some (pair, c') ↦
          let run = get_or pair 1 0 in
          let again =
            pairs_loop fuel (wrote + run) c'
              (copy_into scratch wrote (replicate run (get_or pair 0 0))) in
          if ltb 4096 (wrote + run) then (c', scratch, 1) else again
    ] in
    if leb 4096 wrote then (c, scratch, 0) else if ltb c.remaining 2 then (c, scratch, 1) else rest

unfoldable pub replay_pairs : Cursor → List ℕ → Copied
unfolding pairs_loop
replay_pairs c scratch = pairs_loop (c.remaining + 1) 0 c scratch

-- The frame whose header bytes were read; `none` is `break`. The header is taken off with a slice
-- of 32 bytes, where `FrameHeader` has 28.
unfoldable pub replay_frame : List ℕ → Replay → Option Replay
unfolding replay_raw replay_pairs
replay_frame hdr s =
    let payload_len = payload_len_of hdr in
    let c = past_read s.cur (read_into s.cur 32) in
    let (c', scratch, errors) =
      if bit_and (flags_of hdr) flag_comp == 0
      then replay_raw payload_len c s.scratch
      else replay_pairs c s.scratch in
    let m = count mig_replay_bytes 4096 (count mig_replay_pages 1 s.state) in
    if ltb c.remaining payload_len
    then none
    else some (record {
      cur = c';
      scratch = scratch;
      pages_done = s.pages_done + 1;
      bytes_done = s.bytes_done + 4096;
      errors = s.errors + errors;
      state = m;
    })

abbrev pub replay_header : Replay → Option (List ℕ × Cursor) → Option Replay
replay_header s none = none
replay_header s (some (hdr, _)) =
    if same_bytes (take 4 hdr) magic
    then replay_frame hdr s
    else some (record s { cur = past_skip s.cur (skip s.cur 1) })

-- The body of the loop.
unfoldable pub replay_step : Replay → Option Replay
unfolding replay_frame same_bytes
replay_step s = replay_header s (read_into s.cur 32)

unfoldable pub replay_loop : ℕ → ℕ → Replay → Replay
unfolding replay_step
replay_loop zero max_pages s = s
replay_loop (suc fuel) max_pages s =
    let rest : Replay = elim (replay_step s) [
      | none ↦ s
      | some s' ↦ replay_loop fuel max_pages s'
    ] in
    if leb header_size s.cur.remaining && (max_pages == 0 || ltb s.pages_done max_pages)
    then rest
    else s

abbrev pub replay_start : List ℕ → Buffer → Machine → Replay
replay_start scratch b m = record {
  cur = cursor_of b;
  scratch = scratch;
  pages_done = 0;
  bytes_done = 0;
  errors = 0;
  state = m;
}

-- Each round moves the cursor by at least one byte.
unfoldable pub replay : ℕ → List ℕ → Buffer → Machine → Replay
unfolding replay_loop cursor_of
replay max_pages scratch b m = replay_loop b.len max_pages (replay_start scratch b m)

-- The counter of errors is raised at the end.
unfoldable pub replay_to_buffer : ℕ → Option (List ℕ) → Machine → Machine
unfolding replay
replay_to_buffer max_pages scratch m = elim m.chan [
  | none ↦ m
  | some b ↦ elim scratch [
    | none ↦ m
    | some page ↦
        let s = replay max_pages page b m in
        if ltb 0 s.errors then count mig_replay_errors s.errors s.state else s.state
  ]
]
