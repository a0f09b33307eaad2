-- ===== src/Migrate/Verify/Counts.antt =====
-- Verifying a stream of frames counts all of them as good.
use native.Mathlib.Decide.{dec_lt}
use native.Mathlib.Nat.{mod-lt}
use zerovisor.Base.{
  ℕ, zero, suc, ◌+◌, ◌-◌, ◌^◌, ◌≤◌, ◌<◌, ◌≡◌, refl, ap, ◌∙◌, sym, true, false, List, [], ◌∷◌, some,
  arith, length, drop, drop-append, ◌==◌, leb,
}
use zerovisor.Migrate.Channel.{Buffer}
use zerovisor.Migrate.Channel.Ring.{IsValid, contents}
use zerovisor.Migrate.State.{Machine}
use zerovisor.Migrate.Codec.{header_size}
use zerovisor.Migrate.Cursor.{Cursor}
use zerovisor.Migrate.Cursor.Laws.{
  IsReader, view, advance, length-view, view-advance, advance-IsReader,
}
use zerovisor.Migrate.Verify.{
  cursor_of, refresh, Verify, record_frame, order_frame, verify_loop, verify_start, chan_verify,
}
use zerovisor.Migrate.Verify.Frames.{
  Frame, AllSendable, stream, after_frame, remaining-eq, view-payload, verify_step-frame,
}

-- The cursor reads the memory of the buffer that the state has.
abbrev IsTied : Buffer → Verify → Type 0
IsTied b s = (s.state.chan ≡ some b) × (s.cur.mem ≡ b.mem)

chan-record_frame :
    (expected seq n : ℕ) (m : Machine) → (record_frame false true expected seq n m).chan ≡ m.chan
unfolding record_frame order_frame
chan-record_frame expected seq n m = ground arith

refresh-tied :
    (b : Buffer) (m : Machine) (c : Cursor) → m.chan ≡ some b → c.mem ≡ b.mem → refresh m c ≡ c
refresh-tied b m c e p = rw (e, refresh) (ap (λ (l : List ℕ). record c { mem = l }) (sym p))

-- The outcome of verifying a stream of frames from `s` on.
record Verified (s : Verify) (n : ℕ) (out : Verify) : Type 0 where
  all_counted : out.frames ≡ s.frames + n
  all_good : out.ok ≡ s.ok + n
  none_bad : out.bad ≡ s.bad

verify_loop-Verified :
    (fs : List Frame) (fuel : ℕ) (s : Verify) (b : Buffer)
    → IsReader s.cur
    → s.cur.remaining < 2 ^ 64
    → IsTied b s
    → AllSendable fs
    → view s.cur ≡ stream fs
    → s.cur.remaining ≤ fuel
    → Verified s (length fs) (verify_loop fuel 0 false s)
unfolding verify_loop
verify_loop-Verified [] zero s b v w t a e h = omega arith
verify_loop-Verified [] (suc fuel) s b v w t a e h =
    let gone : s.cur.remaining ≡ 0 = omega (arith, length-view s.cur, ap length e) in
    let stop : leb header_size s.cur.remaining ≡ false = ground arith in rw stop (omega arith)
verify_loop-Verified (f ∷ fs) zero s b v w t a e h =
    absurd (omega (arith, remaining-eq s f (stream fs) v w a.0 e))
verify_loop-Verified (f ∷ fs) (suc fuel) s b v w t a e h =
    let size = remaining-eq s f (stream fs) v w a.0 e in
    let go : leb header_size s.cur.remaining ≡ true = ground arith in
    let kept = chan-record_frame s.expected_seq f.seq (length f.payload) s.state ∙ t.0 in
    let next = advance (advance s.cur header_size) (length f.payload) in
    let tied =
      refresh-tied b (record_frame false true s.expected_seq f.seq (length f.payload) s.state) next
        kept t.1 in
    let reader = advance-IsReader (length f.payload) (advance-IsReader header_size v) in
    let seen : view next ≡ stream fs =
      view-advance (advance s.cur header_size) (length f.payload) (omega arith)
      ∙ ap (drop (length f.payload)) (view-payload s f (stream fs) v w a.0 e)
      ∙ drop-append (length f.payload) f.payload (stream fs) refl in
    let ih =
      verify_loop-Verified fs fuel (record (after_frame s f) { cur = next }) b reader (omega arith)
        (kept, t.1) a.1 seen (omega arith) in
    rw (go, verify_step-frame s f (stream fs) v w a.0 e, tied) (omega (arith, ih))

pub cursor_of-IsReader : (b : Buffer) → IsValid b → IsReader (cursor_of b)
unfolding cursor_of
cursor_of-IsReader b v = record {
  nonempty = v.nonempty;
  pos_in = ground (arith, v.nonempty, mod-lt (b.wpos + b.cap - b.len) v.nonempty);
  remaining_in = v.len_in;
}

-- The cursor starts at the oldest byte.
pub view-cursor_of : (b : Buffer) → view (cursor_of b) ≡ contents b
unfolding cursor_of
view-cursor_of b = elim (dec_lt 0 b.len) [
  | yes p ↦ (let e : (b.len == 0) ≡ false = ground arith in rw e refl)
  | no p ↦ (let z : b.len ≡ 0 = omega arith in rw z refl)
]

-- If the buffer is the channel of the state and holds just the bytes of sendable frames, then
-- `chan_verify` without a limit and without automatic control frames counts every one of them,
-- finds all of them good and none bad.
pub chan_verify-counts :
    (fs : List Frame) (b : Buffer) (m : Machine)
    → IsValid b
    → b.len < 2 ^ 64
    → m.chan ≡ some b
    → AllSendable fs
    → contents b ≡ stream fs
    → ((chan_verify 0 false b m).frames ≡ length fs)
      × ((chan_verify 0 false b m).ok ≡ length fs)
      × ((chan_verify 0 false b m).bad ≡ 0)
unfolding chan_verify cursor_of
chan_verify-counts fs b m v w t a e =
    let out =
      verify_loop-Verified fs b.len (verify_start b m) b (cursor_of-IsReader b v) w (t, refl) a
        (view-cursor_of b ∙ e) (omega arith) in
    (omega (arith, out.all_counted), omega (arith, out.all_good), out.none_bad)
