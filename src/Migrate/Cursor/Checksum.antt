-- ===== src/Migrate/Cursor/Checksum.antt =====
-- `checksum` works through the ring in pieces of at most 64 bytes.
use native.Mathlib.Nat.{mod-lt}
use zerovisor.Util.Crc32.{crc_bytes, crc32, crc32_update}
use zerovisor.Util.Crc32.Laws.{crc_bytes-append, crc_bytes-lt, not32_twice}
use zerovisor.Base.{
  ℕ, zero, suc, ◌+◌, ◌-◌, ◌%◌, ◌^◌, ◌≤◌, ◌<◌, min, ◌≡◌, refl, ap, ◌∙◌, sym, List, true, arith, take,
  take-tabulate, not32, sub64, ltb, ◌&&◌,
}
use zerovisor.Migrate.Channel.Ring.{window}
use zerovisor.Migrate.Cursor.{Cursor, copy_out, checksum_loop, checksum}
use zerovisor.Migrate.Cursor.Laws.{IsReader, view, window_straight, window-add}

-- Taking up a checksum that was put down gives the running value.
resume : (c : ℕ) (bs : List ℕ) → c < 2 ^ 32 → not32 (crc32_update (not32 c) bs) ≡ crc_bytes c bs
unfolding crc32_update
resume c bs h =
    ap (λ d. not32 (not32 (crc_bytes d bs))) (not32_twice c h)
    ∙ not32_twice (crc_bytes c bs) (crc_bytes-lt c bs h)

checksum_loop-eq :
    (fuel : ℕ) (mem : List ℕ) (cap pos rem l c : ℕ)
    → l ≤ fuel
    → l ≤ rem
    → rem < 2 ^ 64
    → pos < cap
    → c < 2 ^ 32
    → checksum_loop fuel mem cap pos rem l c ≡ crc_bytes c (window mem cap pos l)
unfolding checksum_loop
checksum_loop-eq zero mem cap pos rem l c f r w p b =
    let e : l ≡ 0 = omega arith in rw e (unfold crc_bytes in refl)
checksum_loop-eq (suc fuel) mem cap pos rem zero c f r w p b = unfold crc_bytes in refl
checksum_loop-eq (suc fuel) mem cap pos rem (suc l) c f r w p b =
    let n : ℕ = min (min (suc l) 64) (cap - pos) in
    let copied : copy_out mem pos n ≡ window mem cap pos n =
      window_straight mem cap pos n (omega arith) in
    let run : not32 (crc32_update (not32 c) (copy_out mem pos n))
        ≡ crc_bytes c (window mem cap pos n) =
      resume c (copy_out mem pos n) b ∙ ap (crc_bytes c) copied in
    let left : sub64 rem n ≡ rem - n = omega arith in
    let ih =
      checksum_loop-eq fuel mem cap ((pos + n) % cap) (rem - n) (suc l - n)
        (crc_bytes c (window mem cap pos n)) (omega arith) (omega arith) (omega arith)
        (mod-lt (pos + n) (omega arith)) (crc_bytes-lt c (window mem cap pos n) b) in
    let whole : n + (suc l - n) ≡ suc l = omega arith in
    let split =
      sym (crc_bytes-append c (window mem cap pos n) (window mem cap ((pos + n) % cap) (suc l - n)))
      ∙ ap (crc_bytes c)
          (sym (window-add mem cap pos n (suc l - n)) ∙ ap (window mem cap pos) whole) in
    let more : (ltb 0 (suc l) && ltb 0 rem) ≡ true = ground arith in
    rw (more, run, left) (ih ∙ split)

-- The checksum of the next `len` bytes before the cursor is `crc32` of them, wherever the memory
-- goes round and whatever the pieces.
pub checksum-eq-crc32 :
    (c : Cursor) (len : ℕ)
    → IsReader c
    → len ≤ c.remaining
    → c.remaining < 2 ^ 64
    → checksum c len ≡ crc32 (take len (view c))
unfolding checksum crc32
checksum-eq-crc32 c len v h w = ap not32 (
    checksum_loop-eq len c.mem c.cap c.pos c.remaining len 0xFFFFFFFF (omega arith) h w v.pos_in
      (omega arith)
    ∙ ap (crc_bytes 0xFFFFFFFF) (sym (take-tabulate len c.remaining _ h)))
