-- ===== src/Migrate/Channel/Contents.antt =====
-- `chan_write` against the ring of bytes: it stores every byte of its source, and of what the
-- buffer held and was given, the last `cap` bytes remain.
use native.Mathlib.Nat.{mod-eq_of_lt, mod-add-mod}
use native.Mathlib.Decide.{dec_lt}
use zerovisor.Base.{
  last_n, ℕ, zero, suc, ◌+◌, ◌-◌, ◌%◌, ◌≤◌, ◌<◌, min, ◌≡◌, refl, ap, ◌∙◌, sym, List, [], ◌∷◌, ◌++◌,
  some, arith, ltb, if◌then◌else◌, length, wrap_once, take, drop, length-take, length-drop,
  take-append-drop, take-add, drop_of_le,
}
use zerovisor.Migrate.Channel.{
  Buffer, copy_into, to_write, store, write_loop, chan_write, consume, chan_consume,
}
use zerovisor.Migrate.Channel.Ring.{
  IsValid, window, start_of, contents, length-contents, drop-window, push, pushes, push-IsValid,
  pushes-IsValid, pushes-append, cap-pushes, contents-pushes,
}

-- A copy that does not pass the end of the memory.
pushes_segment :
    (b : Buffer) (xs : List ℕ)
    → IsValid b
    → b.wpos + length xs ≤ b.cap
    → pushes b xs ≡ record b {
      mem = copy_into b.mem b.wpos xs;
      wpos = (b.wpos + length xs) % b.cap;
      len = min (b.len + length xs) b.cap;
    }
unfolding pushes copy_into
pushes_segment b [] v h = ground (arith, mod-eq_of_lt v.wpos_in)
pushes_segment b (x ∷ []) v h = refl
pushes_segment b (x ∷ y ∷ ys) v h =
    let next : (b.wpos + 1) % b.cap ≡ b.wpos + 1 = mod-eq_of_lt (omega arith) in
    pushes_segment (push b x) (y ∷ ys) (push-IsValid x v) (rw next (omega arith))
    ∙ rw next (ground arith)

-- A copy that reaches the end of the memory and goes on at its beginning.
pushes_turn :
    (b : Buffer) (head tail : List ℕ)
    → IsValid b
    → b.wpos + length head ≡ b.cap
    → length tail < b.cap
    → pushes b (head ++ tail) ≡ record b {
      mem = copy_into (copy_into b.mem b.wpos head) 0 tail;
      wpos = length tail;
      len = min (b.len + length head + length tail) b.cap;
    }
pushes_turn b head tail v h t =
    let at_end : (b.wpos + length head) % b.cap ≡ 0 =
      omega (arith, wrap_once (b.wpos + length head) b.cap (omega arith)) in
    let one = pushes_segment b head v (omega arith) in
    let w : (pushes b head).wpos ≡ 0 = ap (λ (c : Buffer). c.wpos) one ∙ at_end in
    let two =
      pushes_segment (pushes b head) tail (pushes-IsValid head v)
        (rw (w, cap-pushes) (omega arith)) in
    pushes-append b head tail ∙ two ∙ rw (one, at_end) (ground (arith, mod-eq_of_lt t))

-- The body of the loop stores the next `k` bytes.
store-eq-pushes :
    (b : Buffer) (src : List ℕ) (k : ℕ)
    → IsValid b
    → k ≤ length src
    → k ≤ b.cap
    → store b src k ≡ pushes b (take k src)
unfolding store
store-eq-pushes b src k v h c = elim (dec_lt (b.cap - b.wpos) k) [ yes p ↦ turns p | no p ↦ fits p ]
  where
    fits : ¬ (b.cap - b.wpos < k) → store b src k ≡ pushes b (take k src)
    fits p =
        let e : min (b.cap - b.wpos) k ≡ k = omega arith in
        let n : length (take k src) ≡ k = omega (arith, length-take k src) in
        rw e (ground (arith, n, pushes_segment b (take k src) v (omega arith)))

    turns : b.cap - b.wpos < k → store b src k ≡ pushes b (take k src)
    turns p =
        let first : ℕ = b.cap - b.wpos in
        let e : min (b.cap - b.wpos) k ≡ first = omega arith in
        let head = take first src in
        let tail = take (k - first) (drop first src) in
        let n : length head ≡ first = omega (arith, length-take first src) in
        let m : length tail ≡ k - first =
          omega (arith, length-take (k - first) (drop first src), length-drop first src) in
        let split : take k src ≡ head ++ tail =
          ap (λ j. take j src) {y = first + (k - first)} (omega arith)
          ∙ take-add first (k - first) src in
        rw e (ground (arith, n, m, split, pushes_turn b head tail v))

-- A round takes at least one byte, at most what is left, and at most a whole buffer.
to_write_bounds :
    (b : Buffer) (n : ℕ)
    → IsValid b
    → 0 < n
    → (0 < to_write b n) × (to_write b n ≤ n) × (to_write b n ≤ b.cap)
unfolding to_write
to_write_bounds b n v h = ground arith

write_loop-eq-pushes :
    (fuel : ℕ) (b : Buffer) (src : List ℕ) (written : ℕ)
    → IsValid b
    → length src ≤ fuel
    → write_loop fuel b src written ≡ (pushes b src, written + length src)
unfolding write_loop pushes
write_loop-eq-pushes zero b [] w v h = ground arith
write_loop-eq-pushes zero b (x ∷ xs) w v h = absurd (omega arith)
write_loop-eq-pushes (suc fuel) b [] w v h = ground arith
write_loop-eq-pushes (suc fuel) b (x ∷ xs) w v h =
    let src = x ∷ xs in
    let k : ℕ = to_write b (length src) in
    let bounds = to_write_bounds b (length src) v (omega arith) in
    let len_rest : length (drop k src) ≡ length src - k = length-drop k src in
    let ih =
      write_loop-eq-pushes fuel (pushes b (take k src)) (drop k src) (w + k)
        (pushes-IsValid (take k src) v) (omega arith) in
    let whole : pushes (pushes b (take k src)) (drop k src) ≡ pushes b src =
      sym (pushes-append b (take k src) (drop k src)) ∙ ap (pushes b) (take-append-drop k src) in
    let body : store b src k ≡ pushes b (take k src) =
      store-eq-pushes b src k v bounds.1 bounds.2 in
    ground (arith, ih, whole, body, len_rest, bounds)

-- `chan_write` stores its bytes one after another.
pub chan_write-eq-pushes :
    (b : Buffer) (src : List ℕ)
    → IsValid b
    → chan_write (some b) src ≡ (some (pushes b src), length src)
unfolding chan_write
chan_write-eq-pushes b src v =
    rw (write_loop-eq-pushes (length src) b src 0 v (omega arith)) (ground arith)

-- `chan_write` on a valid buffer reports every byte of the source as written, keeps the buffer
-- valid, and leaves in it the last `cap` bytes of the old contents followed by the source.
pub chan_write-contents :
    (b : Buffer) (src : List ℕ)
    → IsValid b
    → (b' : Buffer) × (chan_write (some b) src ≡ (some b', length src))
      × IsValid b'
      × (b'.cap ≡ b.cap)
      × (contents b' ≡ last_n b.cap (contents b ++ src))
chan_write-contents b src v = (
  pushes b src,
  chan_write-eq-pushes b src v,
  pushes-IsValid src v,
  cap-pushes b src,
  contents-pushes b src v,
)

-- `chan_consume` takes as many of the oldest bytes as asked for, all of them at most, and keeps
-- the buffer valid.
pub chan_consume-contents :
    (b : Buffer) (n : ℕ)
    → IsValid b
    → (b' : Buffer) × (chan_consume (some b) n ≡ some b')
      × IsValid b'
      × (contents b' ≡ drop n (contents b))
unfolding chan_consume
chan_consume-contents b n v = elim (dec_lt b.len n) [
  | yes p ↦
      let gone : b.len - (if ltb b.len n then b.len else n) ≡ 0 = ground arith in
      (
        consume b n,
        refl,
        ground arith,
        ap (window b.mem b.cap (start_of (consume b n))) gone
            ∙ sym (drop_of_le n (contents b) (omega (arith, length-contents b))),
      )
  | no p ↦
      let left : b.len - (if ltb b.len n then b.len else n) ≡ b.len - n = ground arith in
      let start : (b.wpos + b.cap - (b.len - n)) % b.cap ≡ (start_of b + n) % b.cap =
        rw (mod-add-mod (b.wpos + b.cap - b.len) b.cap n) (ap (λ k. k % b.cap) (omega arith)) in
      (
        consume b n,
        refl,
        ground arith,
        rw left (ap (λ k. window b.mem b.cap k (b.len - n)) start)
            ∙ sym (drop-window b.mem b.cap (start_of b) b.len n (omega arith)),
      )
]
