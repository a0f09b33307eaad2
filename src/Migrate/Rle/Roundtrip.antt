-- ===== src/Migrate/Rle/Roundtrip.antt =====
-- Expanding what was compressed gives the page back.
use zerovisor.Base.{
  ℕ, zero, suc, ◌+◌, ◌-◌, ◌≤◌, ◌<◌, ◌*◌, ◌≡◌, refl, ap, ap₂, ◌∙◌, sym, false, List, [], ◌∷◌, ◌++◌,
  Option, none, some, arith, append-nil, append_assoc, Bool-cases, inl, inr, length, drop,
  replicate, u8, ◌≢◌, length-drop, ltb, ◌==◌, ◌&&◌,
}
use zerovisor.Migrate.Rle.{run_from, emit, compress_loop, rle_compress_page, page, expand}

-- The bytes that join a run are all `v`, and the run ends by 255.
run_split :
    (v run : ℕ) (xs : List ℕ)
    → run ≤ 255
    → (k : ℕ) × (run_from v run xs ≡ run + k)
      × (xs ≡ replicate k v ++ drop k xs)
      × (run + k ≤ 255)
      × (k ≤ length xs)
unfolding run_from
run_split v run [] h = (0, omega arith, refl, omega arith, omega arith)
run_split v run (x ∷ xs) h = elim (Bool-cases (ltb run 255 && x == v)) [
  | inl e ↦
      let joined : x ≡ v = ground arith in
      let small : run < 255 = ground arith in
      let (k, len, same, top, fits) = run_split v (run + 1) xs (omega arith) in
      (suc k, rw e (omega (arith, len)), ap₂ ◌∷◌ joined same, omega arith, omega arith)
  | inr e ↦ (0, rw e (omega arith), refl, omega arith, omega arith)
]

expand_done : (code wrote : List ℕ) → expand 0 code wrote ≡ (page wrote, code)
unfolding expand
expand_done [] wrote = refl
expand_done (v ∷ []) wrote = refl
expand_done (v ∷ run ∷ rest) wrote = refl

emit_inv :
    (v run : ℕ) (o : Option (List ℕ)) {code : List ℕ}
    → emit v run o ≡ some code
    → (later : List ℕ) × (o ≡ some later) × (v ∷ u8 run ∷ later ≡ code)
emit_inv v run none e = cc
emit_inv v run (some out) e = (out, refl, cc)

-- One pair of the code expands to a run.
expand_pair :
    (left v run : ℕ) (rest wrote : List ℕ)
    → left ≢ 0
    → run ≤ left
    → expand left (v ∷ run ∷ rest) wrote ≡ expand (left - run) rest (wrote ++ replicate run v)
unfolding expand
expand_pair left v run rest wrote p q = ground arith

-- A round that has room writes a run and hands the rest to the next round.
record Round (fuel room w v : ℕ) (xs code : List ℕ) : Type 0 where
  more : ℕ
  later : List ℕ
  short : more ≤ length xs
  top : suc more ≤ 255
  run : v ∷ xs ≡ replicate (suc more) v ++ drop more xs
  rest : compress_loop fuel room (w + 2) (drop more xs) ≡ some later
  shape : v ∷ suc more ∷ later ≡ code

compress_loop-Round :
    (fuel room w v : ℕ) (xs code : List ℕ)
    → compress_loop (suc fuel) room w (v ∷ xs) ≡ some code
    → Round fuel room w v xs code
unfolding compress_loop
compress_loop-Round fuel room w v xs code e = elim (Bool-cases (ltb room (w + 2))) [
  | inl over ↦ absurd (none≢some (rw over at e))
  | inr fits ↦ go (run_split v 1 xs (omega arith)) (rw fits at e)
]
  where
    none≢some : none ≡ some code → ⊥
    none≢some q = cc

    go :
        (k : ℕ) × (run_from v 1 xs ≡ 1 + k)
          × (xs ≡ replicate k v ++ drop k xs)
          × (1 + k ≤ 255)
          × (k ≤ length xs)
        → emit v
            (run_from v 1 xs)
            (compress_loop fuel room (w + 2) (drop (run_from v 1 xs) (v ∷ xs)))
          ≡ some code
        → Round fuel room w v xs code
    go (k, len, same, top, short) q =
        let len' : run_from v 1 xs ≡ suc k = omega (arith, len) in
        let (later, loop, shape) =
          emit_inv v (suc k) (compress_loop fuel room (w + 2) (drop k xs)) (rw len' at q) in
        let small : u8 (suc k) ≡ suc k = omega arith in
        record {
          more = k;
          later = later;
          short = short;
          top = omega arith;
          run = ap (◌∷◌ v) same;
          rest = loop;
          shape = rw small at shape;
        }

-- What the rounds of the compression write expands to the bytes that they were given, behind
-- those written before, and what follows the code is left alone.
expand-compress_loop :
    (fuel room w : ℕ) (bytes code rest wrote : List ℕ)
    → length bytes ≤ fuel
    → compress_loop fuel room w bytes ≡ some code
    → expand (length bytes) (code ++ rest) wrote ≡ (page (wrote ++ bytes), rest)
unfolding compress_loop
expand-compress_loop zero room w [] code rest wrote f e =
    let e' : code ≡ [] = cc in rw (e', append-nil wrote) (expand_done rest wrote)
expand-compress_loop zero room w (v ∷ xs) code rest wrote f e = absurd (omega arith)
expand-compress_loop (suc fuel) room w [] code rest wrote f e =
    let e' : code ≡ [] = cc in rw (e', append-nil wrote) (expand_done rest wrote)
expand-compress_loop (suc fuel) room w (v ∷ xs) code rest wrote f e =
    let r = compress_loop-Round fuel room w v xs code e in
    let run = replicate (suc r.more) v in
    let left = drop r.more xs in
    let n : suc (length xs) - suc r.more ≡ length left = omega (arith, length-drop r.more xs) in
    let ih =
      expand-compress_loop fuel room (w + 2) left r.later rest (wrote ++ run)
        (omega (arith, length-drop r.more xs)) r.rest in
    ap (λ c. expand (suc (length xs)) (c ++ rest) wrote) (sym r.shape)
    ∙ expand_pair (suc (length xs)) v (suc r.more) (r.later ++ rest) wrote (omega arith)
        (omega (arith, r.short))
    ∙ ap (λ m. expand m (r.later ++ rest) (wrote ++ run)) n
    ∙ ih
    ∙ ap (λ l. (page l, rest)) (append_assoc wrote run left ∙ ap (λ l. wrote ++ l) (sym r.run))

-- A page that the compression accepts is given back by the expansion, which reads the code and
-- nothing of what follows it.
pub expand-rle_compress_page :
    (room : ℕ) (bytes code rest : List ℕ)
    → rle_compress_page room bytes ≡ some code
    → expand (length bytes) (code ++ rest) [] ≡ (page bytes, rest)
unfolding rle_compress_page
expand-rle_compress_page room bytes code rest e =
    expand-compress_loop (length bytes) room 0 bytes code rest [] (omega arith) e

compress_loop_long :
    (fuel room w : ℕ) (bytes code : List ℕ)
    → length bytes ≤ fuel
    → compress_loop fuel room w bytes ≡ some code
    → length bytes ≤ 255 * length code
unfolding compress_loop
compress_loop_long zero room w [] code f e = omega arith
compress_loop_long zero room w (v ∷ xs) code f e = absurd (omega arith)
compress_loop_long (suc fuel) room w [] code f e = omega arith
compress_loop_long (suc fuel) room w (v ∷ xs) code f e =
    let r = compress_loop-Round fuel room w v xs code e in
    let left = length-drop r.more xs in
    let ih =
      compress_loop_long fuel room (w + 2) (drop r.more xs) r.later (omega (arith, left)) r.rest in
    omega (arith, r.top, left, ih, ap length (sym r.shape))

-- A run is at most 255 bytes long, so the code is not arbitrarily short.
pub rle_compress_page_long :
    (room : ℕ) (bytes code : List ℕ)
    → rle_compress_page room bytes ≡ some code
    → length bytes ≤ 255 * length code
unfolding rle_compress_page
rle_compress_page_long room bytes code e =
    compress_loop_long (length bytes) room 0 bytes code (omega arith) e

compress_round :
    (fuel room w v k : ℕ) (xs later : List ℕ)
    → run_from v 1 xs ≡ suc k
    → w + 2 ≤ room
    → compress_loop fuel room (w + 2) (drop k xs) ≡ some later
    → compress_loop (suc fuel) room w (v ∷ xs) ≡ some (v ∷ u8 (suc k) ∷ later)
unfolding compress_loop
compress_round fuel room w v k xs later e h loop =
    let fits : ltb room (w + 2) ≡ false = ground arith in rw (fits, e) (ap (emit v (suc k)) loop)

-- Each round writes two bytes for at least one, so a buffer of twice the page is room enough.
compress_loop-fits :
    (fuel room w : ℕ) (bytes : List ℕ)
    → w + 2 * length bytes ≤ room
    → length bytes ≤ fuel
    → (code : List ℕ) × (compress_loop fuel room w bytes ≡ some code)
      × (length code ≤ 2 * length bytes)
unfolding compress_loop
compress_loop-fits zero room w [] h f = ([], refl, omega arith)
compress_loop-fits zero room w (v ∷ xs) h f = absurd (omega arith)
compress_loop-fits (suc fuel) room w [] h f = ([], refl, omega arith)
compress_loop-fits (suc fuel) room w (v ∷ xs) h f =
    let (k, len, same, top, short) = run_split v 1 xs (omega arith) in
    let left = drop k xs in
    let n : length left ≡ length xs - k = length-drop k xs in
    let (later, loop, size) =
      compress_loop-fits fuel room (w + 2) left (omega arith) (omega arith) in
    (
      v ∷ u8 (suc k) ∷ later,
      compress_round fuel room w v k xs later (omega (arith, len)) (omega arith) loop,
      omega arith,
    )

-- With the 8192 bytes that `frame_and_send_page` provides, every page of 4096 is compressed.
pub rle_compress_page_total :
    (bytes : List ℕ)
    → length bytes ≡ 4096
    → (code : List ℕ) × (rle_compress_page 8192 bytes ≡ some code) × (length code ≤ 8192)
unfolding rle_compress_page
rle_compress_page_total bytes h =
    let (code, e, size) =
      compress_loop-fits (length bytes) 8192 0 bytes (omega arith) (omega arith) in
    (code, e, omega arith)
