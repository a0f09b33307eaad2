-- ===== src/Migrate/Session.antt =====
-- A migration session over the channel buffer of src/migrate/mod.rs: pages are sent, and the frames
-- are verified on the other side.
use zerovisor.Base.{
  ℕ, suc, ◌+◌, ◌*◌, ◌^◌, ◌≤◌, ◌<◌, ◌≡◌, refl, ap, ◌∙◌, sym, Bool, true, false, List, [], ◌∷◌, ◌++◌,
  some, arith, length, u32, last_n, inl, inr, Option-cases, Bool-cases, drop, ltb, length-append,
}
use zerovisor.Migrate.Channel.{Buffer}
use zerovisor.Migrate.Channel.Ring.{
  IsValid, contents, pushes, pushes-IsValid, pushes-append, contents-pushes, cap-pushes,
}
use zerovisor.Migrate.State.{Machine}
use zerovisor.Migrate.Codec.{typ_page, header_bytes}
use zerovisor.Migrate.Rle.{rle_compress_page}
use zerovisor.Migrate.Rle.Roundtrip.{rle_compress_page_long}
use zerovisor.Migrate.Sender.{buffer_writer, page_payload, frame_and_send_page}
use zerovisor.Migrate.Sender.Page.{frame_and_send_page-Delivers}
use zerovisor.Migrate.Verify.{chan_verify}
use zerovisor.Migrate.Verify.Frames.{Frame, IsSendable, AllSendable, bytes_of, stream}
use zerovisor.Migrate.Verify.Counts.{chan_verify-counts}

-- A page of guest memory with its index.
pub record Page : Type 0 where
  pub index : ℕ
  pub bytes : List ℕ

pub record IsPage (p : Page) : Type 0 where
  pub index_fits : p.index < 2 ^ 64
  pub size : length p.bytes ≡ 4096

abbrev pub ArePages : List Page → Type 0
ArePages [] = Unit {0}
ArePages (p ∷ ps) = IsPage p × ArePages ps

-- `frame_and_send_page` for each page, to the channel buffer.
unfoldable pub send_each : Bool → Bool → List Page → Machine → Machine
send_each compress chunked [] m = m
send_each compress chunked (p ∷ ps) m =
    send_each compress chunked ps
      (frame_and_send_page buffer_writer p.index p.bytes compress chunked m).0

abbrev pub frame_of : Bool → ℕ → Page → Frame
frame_of compress seq p = record {
  typ = typ_page;
  flags = (page_payload compress p.bytes).0;
  seq = seq;
  page_index = p.index;
  payload = (page_payload compress p.bytes).1;
}

unfoldable pub frames_of : Bool → ℕ → List Page → List Frame
frames_of compress seq [] = []
frames_of compress seq (p ∷ ps) = frame_of compress seq p ∷ frames_of compress (u32 (seq + 1)) ps

length-frames_of :
    (compress : Bool) (seq : ℕ) (ps : List Page) → length (frames_of compress seq ps) ≡ length ps
unfolding frames_of
length-frames_of compress seq [] = refl
length-frames_of compress seq (p ∷ ps) = ap suc (length-frames_of compress (u32 (seq + 1)) ps)

-- What the payload of a page is like, compressed or not.
payload_bounds :
    (compress : Bool) (bytes : List ℕ)
    → length bytes ≡ 4096
    → ((page_payload compress bytes).0 ≤ 1)
      × (4 ≤ length (page_payload compress bytes).1)
      × (length (page_payload compress bytes).1 ≤ 4096)
unfolding page_payload
payload_bounds false bytes h = (omega arith, omega arith, omega arith)
payload_bounds true bytes h = elim (Option-cases (rle_compress_page 8192 bytes)) [
  | inl e ↦ rw e (omega arith, omega arith, omega arith)
  | inr (code, e) ↦
      let long = rle_compress_page_long 8192 bytes code e in
      rw e (elim (Bool-cases (ltb (length code) 4096)) [
        | inl short ↦ rw short (omega arith, omega (arith, long), ground (arith, short))
        | inr full ↦ rw full (omega arith, omega arith, omega arith)
      ])
]

frame_of-IsSendable :
    (compress : Bool) (seq : ℕ) (p : Page)
    → seq < 2 ^ 32
    → IsPage p
    → IsSendable (frame_of compress seq p)
frame_of-IsSendable compress seq p s i =
    let bounds = payload_bounds compress p.bytes i.size in
    record {
      typ_fits = omega arith;
      flags_fits = omega (arith, bounds);
      seq_fits = s;
      page_index_fits = i.index_fits;
      long = bounds.1;
      length_fits = omega (arith, bounds.2);
    }

frames_of-AllSendable :
    (compress : Bool) (seq : ℕ) (ps : List Page)
    → seq < 2 ^ 32
    → ArePages ps
    → AllSendable (frames_of compress seq ps)
unfolding frames_of
frames_of-AllSendable compress seq [] s a = tt
frames_of-AllSendable compress seq (p ∷ ps) s a = (
  frame_of-IsSendable compress seq p s a.0,
  frames_of-AllSendable compress (u32 (seq + 1)) ps (omega arith) a.1,
)

send_each-stream :
    (compress chunked : Bool) (ps : List Page) (b : Buffer) (m : Machine)
    → IsValid b
    → m.chan ≡ some b
    → (send_each compress chunked ps m).chan
      ≡ some (pushes b (stream (frames_of compress m.next_seq ps)))
unfolding send_each frames_of pushes
send_each-stream compress chunked [] b m v e = e
send_each-stream compress chunked (p ∷ ps) b m v e =
    let d = frame_and_send_page-Delivers b p.index p.bytes compress chunked m v e in
    let m' = (frame_and_send_page buffer_writer p.index p.bytes compress chunked m).0 in
    let frame = frame_of compress m.next_seq p in
    send_each-stream compress chunked ps (pushes b (bytes_of frame)) m'
      (pushes-IsValid (bytes_of frame) v) d.0
    ∙ ap (λ n. some (pushes (pushes b (bytes_of frame)) (stream (frames_of compress n ps)))) d.1
    ∙ ap some (
        sym (
          pushes-append b (bytes_of frame) (stream (frames_of compress (u32 (m.next_seq + 1)) ps))))

-- A frame is at most a page and its header long.
length-stream :
    (compress : Bool) (seq : ℕ) (ps : List Page)
    → ArePages ps
    → length (stream (frames_of compress seq ps)) ≤ 4124 * length ps
unfolding frames_of header_bytes
length-stream compress seq [] a = omega arith
length-stream compress seq (p ∷ ps) a = omega (
  arith,
  length-append (bytes_of (frame_of compress seq p))
      (stream (frames_of compress (u32 (seq + 1)) ps)),
  payload_bounds compress p.bytes (a.0).size,
  length-stream compress (u32 (seq + 1)) ps a.1,
)

no_contents : (b : Buffer) → b.len ≡ 0 → contents b ≡ []
no_contents b e = rw e refl

-- Pages are sent, compressed or not and chunked or not, into an empty channel buffer that is large
-- enough. Then `chan_verify` finds as many frames as pages were sent, all of them good and none bad.
pub session-verified :
    (compress chunked : Bool) (ps : List Page) (b : Buffer) (m : Machine)
    → IsValid b
    → b.len ≡ 0
    → m.chan ≡ some b
    → m.next_seq < 2 ^ 32
    → ArePages ps
    → 4124 * length ps ≤ b.cap
    → b.cap < 2 ^ 64
    → let m' = send_each compress chunked ps m in
      (b' : Buffer) × (m'.chan ≡ some b')
      × ((chan_verify 0 false b' m').frames ≡ length ps)
      × ((chan_verify 0 false b' m').ok ≡ length ps)
      × ((chan_verify 0 false b' m').bad ≡ 0)
session-verified compress chunked ps b m v empty e s a room top =
    let fs = frames_of compress m.next_seq ps in
    let b' = pushes b (stream fs) in
    let m' = send_each compress chunked ps m in
    let v' = pushes-IsValid (stream fs) v in
    let sent = send_each-stream compress chunked ps b m v e in
    let nothing : contents b ≡ [] = no_contents b empty in
    let held : contents b' ≡ stream fs =
      contents-pushes b (stream fs) v
      ∙ ap (λ l. last_n b.cap (l ++ stream fs)) nothing
      ∙ ap (λ k. drop k (stream fs)) {y = 0}
          (omega (arith, length-stream compress m.next_seq ps a)) in
    let (frames, ok, bad) =
      chan_verify-counts fs b' m' v' (omega (arith, v'.len_in, cap-pushes b (stream fs))) sent
        (frames_of-AllSendable compress m.next_seq ps s a) held in
    let n = length-frames_of compress m.next_seq ps in (b', sent, frames ∙ n, ok ∙ n, bad)
