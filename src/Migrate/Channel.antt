-- ===== src/Migrate/Channel.antt =====
-- The channel buffer of src/migrate/mod.rs (`Buffer`, `chan_write`, `chan_new`, `chan_clear`,
-- `chan_stats`, `chan_consume`): a byte ring that overwrites its oldest bytes when it is full.
-- The memory behind `ptr` is the list `mem`; the global `G_BUF` is an argument of each function.
pub mod Ring
pub mod Contents
use zerovisor.Base.{
  ℕ, zero, suc, ◌+◌, ◌-◌, ◌%◌, min, Bool, true, false, List, [], ◌∷◌, Option, none, some, ltb, ◌==◌,
  if◌then◌else◌, length, set, take, drop, replicate, sat_mul64,
}

pub record Buffer : Type 0 where
  pub mem : List ℕ
  pub cap : ℕ
  pub wpos : ℕ
  pub len : ℕ

-- `copy_nonoverlapping(bytes, mem + pos, bytes.len())`
unfoldable pub copy_into : List ℕ → ℕ → List ℕ → List ℕ
copy_into mem pos [] = mem
copy_into mem pos (x ∷ xs) = copy_into (set mem pos x) (pos + 1) xs

-- `to_write`: what fits into the free space, or a whole buffer's worth when there is none.
unfoldable pub to_write : Buffer → ℕ → ℕ
to_write b n =
    let space = b.cap - (if ltb b.len b.cap then b.len else b.cap) in
    min n (if space == 0 then b.cap else space)

-- The body of the loop of `chan_write` once `to_write` is known to be `k`.
unfoldable pub store : Buffer → List ℕ → ℕ → Buffer
unfolding copy_into
store b src k =
    let len = if ltb b.cap (b.len + k) then b.cap else b.len + k in
    let first = min (b.cap - b.wpos) k in
    let mem = copy_into b.mem b.wpos (take first src) in
    let left = k - first in
    if ltb 0 left
    then record b { mem = copy_into mem 0 (take left (drop first src)); wpos = left; len = len }
    else record b { mem = mem; wpos = (b.wpos + first) % b.cap; len = len }

-- The loop, with fuel, over the bytes of the source that are left; it returns the buffer and `written`.
unfoldable pub write_loop : ℕ → Buffer → List ℕ → ℕ → Buffer × ℕ
unfolding to_write store
write_loop zero b src written = (b, written)
write_loop (suc fuel) b src written =
    let k = to_write b (length src) in
    let rest = write_loop fuel (store b src k) (drop k src) (written + k) in
    if length src == 0 then (b, written) else if b.cap == 0 then (b, written) else rest

-- `chan_write` returns the buffer and the number of bytes written, 0 with no buffer. A round
-- writes at least one byte, so the length of the source is fuel enough.
unfoldable pub chan_write : Option Buffer → List ℕ → Option Buffer × ℕ
unfolding write_loop
chan_write none src = (none, 0)
chan_write (some b) src = let (b', written) = write_loop (length src) b src 0 in (some b', written)

-- `allocated` says whether the firmware gives the pages; they are zeroed before use.
unfoldable pub chan_new : Bool → Option Buffer → ℕ → Option Buffer × Bool
chan_new allocated g pages =
    let bytes = sat_mul64 pages 4096 in
    if bytes == 0
    then (g, false)
    else if allocated
    then (some (record { mem = replicate bytes 0; cap = bytes; wpos = 0; len = 0 }), true)
    else (g, false)

unfoldable pub chan_clear : Option Buffer → Option Buffer
chan_clear none = none
chan_clear (some b) = some (record b { wpos = 0; len = 0 })

unfoldable pub chan_stats : Option Buffer → ℕ × ℕ
chan_stats none = (0, 0)
chan_stats (some b) = (b.len, b.cap)

unfoldable pub consume : Buffer → ℕ → Buffer
consume b bytes = record b { len = b.len - (if ltb b.len bytes then b.len else bytes) }

unfoldable pub chan_consume : Option Buffer → ℕ → Option Buffer
unfolding consume
chan_consume none bytes = none
chan_consume (some b) bytes = some (consume b bytes)
