-- ===== src/Migrate/Rle.antt =====
-- The run-length code of pages (`rle_compress_page` and the expansion in `replay_to_buffer` of
-- src/migrate/mod.rs), over the list of a page's bytes.
pub mod Roundtrip
use zerovisor.Base.{
  ℕ, zero, suc, ◌+◌, ◌-◌, ◌&&◌, List, [], ◌∷◌, ◌++◌, Option, none, some, ltb, ◌==◌, if◌then◌else◌,
  length, drop, replicate, u8,
}

-- The inner loop: how long the run of `v` gets, from `run` on.
unfoldable pub run_from : ℕ → ℕ → List ℕ → ℕ
run_from v run [] = run
run_from v run (x ∷ xs) = if ltb run 255 && x == v then run_from v (run + 1) xs else run

-- `out[w] = v; out[w + 1] = run as u8`, before what the later rounds write.
abbrev pub emit : ℕ → ℕ → Option (List ℕ) → Option (List ℕ)
emit v run none = none
emit v run (some out) = some (v ∷ u8 run ∷ out)

-- The outer loop, with fuel, over the bytes that are left: `w` bytes are written already of the
-- `room` that `out` has. The result is what the remaining rounds write.
unfoldable pub compress_loop : ℕ → ℕ → ℕ → List ℕ → Option (List ℕ)
unfolding run_from
compress_loop zero room w page = some []
compress_loop (suc fuel) room w [] = some []
compress_loop (suc fuel) room w (v ∷ rest) =
    let run = run_from v 1 rest in
    let later = emit v run (compress_loop fuel room (w + 2) (drop run (v ∷ rest))) in
    if ltb room (w + 2) then none else later

-- `rle_compress_page`: a round takes at least one byte, so the page's length is fuel enough.
unfoldable pub rle_compress_page : ℕ → List ℕ → Option (List ℕ)
unfolding compress_loop
rle_compress_page room page = compress_loop (length page) room 0 page

-- What the expansion in `replay_to_buffer` came to: the page, or one error and what was written.
pub data Expanded : Type 0 where
  page : List ℕ → Expanded
  broken : List ℕ → Expanded

-- The expansion of `left` bytes, which reads the pairs of the code one by one; `wrote` is what
-- stands in the scratch page already. The code list gives the fuel.
unfoldable pub expand : ℕ → List ℕ → List ℕ → Expanded × List ℕ
expand left [] wrote = if left == 0 then (page wrote, []) else (broken wrote, [])
expand left (v ∷ []) wrote = if left == 0 then (page wrote, v ∷ []) else (broken wrote, v ∷ [])
expand left (v ∷ run ∷ rest) wrote =
    let next = expand (left - run) rest (wrote ++ replicate run v) in
    if left == 0
    then (page wrote, v ∷ run ∷ rest)
    else if ltb left run
    then (broken wrote, rest)
    else next
