-- ===== src/Migrate/Replay/Header.antt =====
-- The header that `replay_to_buffer` of src/migrate/mod.rs takes off the channel is four bytes
-- longer than the one that is sent.
use zerovisor.Base.{
  ℕ, ◌+◌, ◌^◌, ◌<◌, ◌≡◌, refl, ap, ◌∙◌, sym, List, [], ◌++◌, none, some, arith, length, ltb, suc,
  zero, append-nil, take, true,
}
use zerovisor.Migrate.Channel.{Buffer}
use zerovisor.Migrate.Channel.Ring.{IsValid, contents}
use zerovisor.Migrate.State.{Machine}
use zerovisor.Migrate.Codec.{header_bytes, magic, header_size, payload_len_of}
use zerovisor.Migrate.Codec.Roundtrip.{header_fields}
use zerovisor.Migrate.Cursor.{Cursor, read_into}
use zerovisor.Migrate.Cursor.Laws.{IsReader, view, advance, read_into-eq}
use zerovisor.Migrate.Verify.{cursor_of, same_bytes, verify_start}
use zerovisor.Migrate.Verify.Frames.{
  Frame, IsSendable, bytes_of, header_of, header_of-Fits, payload_len-header_of, peeked,
  remaining-eq,
}
use zerovisor.Migrate.Verify.Counts.{cursor_of-IsReader, view-cursor_of}
use zerovisor.Migrate.Replay.{
  Replay, replay, replay_start, replay_loop, replay_step, replay_header, replay_frame,
}

replay_header-frame :
    (s : Replay) (hdr : List ℕ) (c : Cursor)
    → take 4 hdr ≡ magic
    → replay_header s (some (hdr, c)) ≡ replay_frame hdr s
unfolding same_bytes
replay_header-frame s hdr c e = rw e

-- With less than a payload behind 32 bytes the loop stops.
replay_frame-stops :
    (s : Replay) (hdr bytes : List ℕ) (c : Cursor)
    → read_into s.cur 32 ≡ some (bytes, c)
    → c.remaining < payload_len_of hdr
    → replay_frame hdr s ≡ none
unfolding replay_frame
replay_frame-stops s hdr bytes c e h =
    let short : ltb c.remaining (payload_len_of hdr) ≡ true = ground arith in rw (e, short) refl

replay_loop-stopped :
    (fuel max_pages : ℕ) (s : Replay) → replay_step s ≡ none → replay_loop fuel max_pages s ≡ s
unfolding replay_loop
replay_loop-stopped zero max_pages s e = refl
replay_loop-stopped (suc fuel) max_pages s e = rw e (ground arith)

replay_step-lost :
    (f : Frame) (s : Replay)
    → IsReader s.cur
    → IsSendable f
    → view s.cur ≡ bytes_of f
    → s.cur.remaining ≡ header_size + length f.payload
    → replay_step s ≡ none
unfolding replay_step
replay_step-lost f s v sendable e size =
    let hdr = header_bytes (header_of f) ++ take 4 (f.payload ++ []) in
    let fields =
      header_fields (header_of f) (take 4 (f.payload ++ [])) (header_of-Fits f sendable) in
    let read = read_into-eq s.cur 32 v (omega arith) in
    let seen : take 32 (view s.cur) ≡ hdr =
      ap (take 32) (e ∙ sym (append-nil (bytes_of f))) ∙ peeked f [] sendable in
    ap (replay_header s) read
    ∙ ap (λ l. replay_header s (some (l, advance s.cur 32))) seen
    ∙ replay_header-frame s hdr (advance s.cur 32) fields.1
    ∙ replay_frame-stops s hdr (take 32 (view s.cur)) (advance s.cur 32) read
        (omega (arith, fields.5, payload_len-header_of f sendable))

-- From a valid channel buffer that holds just one frame as it is sent, whose payload has at least
-- four bytes, `replay_to_buffer` reconstructs no page and reports no error.
pub replay-lost :
    (f : Frame) (b : Buffer) (scratch : List ℕ) (max_pages : ℕ) (m : Machine)
    → IsValid b
    → b.len < 2 ^ 64
    → IsSendable f
    → contents b ≡ bytes_of f
    → ((replay max_pages scratch b m).pages_done ≡ 0) × ((replay max_pages scratch b m).errors ≡ 0)
unfolding replay cursor_of
replay-lost f b scratch max_pages m v w sendable e =
    let start = replay_start scratch b m in
    let seen : view start.cur ≡ bytes_of f = view-cursor_of b ∙ e in
    let size =
      remaining-eq (verify_start b m) f [] (cursor_of-IsReader b v) w sendable
        (seen ∙ sym (append-nil (bytes_of f))) in
    let stopped =
      replay_loop-stopped b.len max_pages start
        (replay_step-lost f start (cursor_of-IsReader b v) sendable seen (omega (arith, size))) in
    (ap (λ (r : Replay). r.pages_done) stopped, ap (λ (r : Replay). r.errors) stopped)
