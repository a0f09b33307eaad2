-- ===== src/Migrate/Cursor.antt =====
-- `ChanCursor` of src/migrate/mod.rs: a reading position in the channel buffer.
pub mod Laws
pub mod Checksum
use zerovisor.Util.Crc32.{crc32_update}
use zerovisor.Base.{
  ℕ, zero, suc, ◌+◌, ◌-◌, ◌%◌, min, List, ◌++◌, Option, none, some, ltb, ◌&&◌, if◌then◌else◌,
  get_or, tabulate, not32, sub64,
}

pub record Cursor : Type 0 where
  pub mem : List ℕ
  pub cap : ℕ
  pub pos : ℕ
  pub remaining : ℕ

-- `copy_nonoverlapping` out of the memory.
abbrev pub copy_out : List ℕ → ℕ → ℕ → List ℕ
copy_out mem pos n = tabulate n (λ i. get_or mem (pos + i) 0)

-- `read_into` a slice of `n` bytes: what it holds afterwards and the cursor; `none` is `false`,
-- which leaves the cursor alone.
unfoldable pub read_into : Cursor → ℕ → Option (List ℕ × Cursor)
read_into c n =
    let first = min n (c.cap - c.pos) in
    let head = copy_out c.mem c.pos first in
    let pos = (c.pos + first) % c.cap in
    let remaining = c.remaining - first in
    let rest = n - first in
    if ltb c.remaining n
    then none
    else if ltb first n
    then some (
      head ++ copy_out c.mem pos rest,
      record c { pos = (pos + rest) % c.cap; remaining = remaining - rest },
    )
    else some (head, record c { pos = pos; remaining = remaining })

unfoldable pub skip : Cursor → ℕ → Option Cursor
skip c n =
    let adv = n % c.cap in
    if ltb c.remaining n
    then none
    else some (record c { pos = (c.pos + adv) % c.cap; remaining = c.remaining - n })

-- The loop of `checksum`, with fuel: the position, `rem`, `l` and the running value.
unfoldable pub checksum_loop : ℕ → List ℕ → ℕ → ℕ → ℕ → ℕ → ℕ → ℕ
checksum_loop zero mem cap pos rem l c = c
checksum_loop (suc fuel) mem cap pos rem l c =
    let n = min (min l 64) (cap - pos) in
    let c' = not32 (crc32_update (not32 c) (copy_out mem pos n)) in
    let next = checksum_loop fuel mem cap ((pos + n) % cap) (sub64 rem n) (l - n) c' in
    if ltb 0 l && ltb 0 rem then next else c

-- A round takes at least one byte, so `len` is fuel enough.
unfoldable pub checksum : Cursor → ℕ → ℕ
unfolding checksum_loop
checksum c len = not32 (checksum_loop len c.mem c.cap c.pos c.remaining len 0xFFFFFFFF)
