-- ===== src/Migrate/Cursor/Laws.antt =====
-- A cursor seen as the list of the bytes before it.
use native.Mathlib.Nat.{mod-eq_of_lt, mod-lt, mod-add-mod}
use native.Mathlib.Decide.{dec_lt}
use zerovisor.Base.{
  ℕ, ◌+◌, ◌-◌, ◌%◌, ◌≤◌, ◌<◌, min, ◌≡◌, ap, ◌∙◌, sym, List, ◌++◌, some, arith, length, take, drop,
  get_or, tabulate_ext, tabulate-add, take-tabulate, length-tabulate, wrap_once,
}
use zerovisor.Migrate.Channel.Ring.{window, drop-window}
use zerovisor.Migrate.Cursor.{Cursor, copy_out, read_into, skip}

pub record IsReader (c : Cursor) : Type 0 where
  pub nonempty : 0 < c.cap
  pub pos_in : c.pos < c.cap
  pub remaining_in : c.remaining ≤ c.cap

-- The bytes that the cursor has before it.
abbrev pub view : Cursor → List ℕ
view c = window c.mem c.cap c.pos c.remaining

abbrev pub advance : Cursor → ℕ → Cursor
advance c n = record c { pos = (c.pos + n) % c.cap; remaining = c.remaining - n }

pub length-view : (c : Cursor) → length (view c) ≡ c.remaining
length-view c = length-tabulate c.remaining _

pub view-advance : (c : Cursor) (n : ℕ) → n ≤ c.remaining → view (advance c n) ≡ drop n (view c)
view-advance c n h = sym (drop-window c.mem c.cap c.pos c.remaining n h)

pub advance-IsReader : {c : Cursor} (n : ℕ) → IsReader c → IsReader (advance c n)
advance-IsReader {c} n v = record {
  nonempty = v.nonempty;
  pos_in = mod-lt (c.pos + n) v.nonempty;
  remaining_in = omega arith;
}

-- Up to the end of the memory a window is a copy.
pub window_straight :
    (mem : List ℕ) (cap pos n : ℕ) → pos + n ≤ cap → copy_out mem pos n ≡ window mem cap pos n
window_straight mem cap pos n h =
    tabulate_ext n _ _
      λ i p. ap (λ j. get_or mem j 0) (sym (mod-eq_of_lt {n = pos + i} {m = cap} (omega arith)))

pub window-add :
    (mem : List ℕ) (cap pos n m : ℕ)
    → window mem cap pos (n + m) ≡ window mem cap pos n ++ window mem cap ((pos + n) % cap) m
window-add mem cap pos n m =
    tabulate-add n m _
    ∙ ap (λ l. window mem cap pos n ++ l)
        (tabulate_ext m _ _ λ i p. ap (λ j. get_or mem j 0) (shift i))
  where
    shift : (i : ℕ) → (pos + (n + i)) % cap ≡ ((pos + n) % cap + i) % cap
    shift i = rw (mod-add-mod (pos + n) cap i) (ap (λ t. t % cap) (omega arith))

-- Reading gives the next `n` bytes, also round the end of the memory.
pub read_into-eq :
    (c : Cursor) (n : ℕ)
    → IsReader c
    → n ≤ c.remaining
    → read_into c n ≡ some (take n (view c), advance c n)
unfolding read_into
read_into-eq c n v h =
    rw (take-tabulate n c.remaining (λ i. get_or c.mem ((c.pos + i) % c.cap) 0) h)
      (elim (dec_lt (c.cap - c.pos) n) [ yes p ↦ turns p | no p ↦ straight p ])
  where
    straight :
        ¬ (c.cap - c.pos < n) → read_into c n ≡ some (window c.mem c.cap c.pos n, advance c n)
    straight p =
        let e : min n (c.cap - c.pos) ≡ n = omega arith in
        rw e (ground (arith, window_straight c.mem c.cap c.pos n (omega arith)))

    turns : c.cap - c.pos < n → read_into c n ≡ some (window c.mem c.cap c.pos n, advance c n)
    turns p =
        let first : ℕ = c.cap - c.pos in
        let e : min n (c.cap - c.pos) ≡ first = omega arith in
        let z : (c.pos + first) % c.cap ≡ 0 =
          omega (arith, wrap_once (c.pos + first) c.cap (omega arith)) in
        let s : first + (n - first) ≡ n = omega arith in
        let w : (0 + (n - first)) % c.cap ≡ (c.pos + n) % c.cap = omega (
          arith,
          wrap_once (c.pos + n) c.cap (omega arith),
          mod-eq_of_lt {n = 0 + (n - first)} {m = c.cap} (omega arith),
        ) in
        rw (e, z)
          (ground (
            arith,
            w,
            ap (window c.mem c.cap c.pos) s,
            window-add c.mem c.cap c.pos first (n - first),
            window_straight c.mem c.cap c.pos first (omega arith),
            window_straight c.mem c.cap 0 (n - first) (omega arith),
          ))

pub skip-eq : (c : Cursor) (n : ℕ) → IsReader c → n ≤ c.remaining → skip c n ≡ some (advance c n)
unfolding skip
skip-eq c n v h =
    let e : (c.pos + n % c.cap) % c.cap ≡ (c.pos + n) % c.cap = omega (
      arith,
      wrap_once n c.cap (omega arith),
      wrap_once (c.pos + n % c.cap) c.cap (omega (arith, mod-lt n v.nonempty)),
      wrap_once (c.pos + n) c.cap (omega arith),
    ) in
    ground (arith, e)
