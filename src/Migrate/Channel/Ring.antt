-- ===== src/Migrate/Channel/Ring.antt =====
-- The channel buffer seen as a ring: its invariant, the bytes that it holds, oldest first, and
-- what storing a single byte does to them.
use zerovisor.Base.{
  ℕ, suc, ◌+◌, ◌-◌, ◌%◌, ◌≤◌, ◌<◌, min, ◌≡◌, refl, ap, ap₂, ◌≢◌, ◌∙◌, sym, List, [], ◌∷◌, ◌++◌,
  arith, append_assoc, append-nil, length, get_or, set, drop, length-set, get_or-set_self,
  get_or-set_ne, length-append, last_n, last_n-append, drop-append_le, tabulate, tabulate_ext,
  tabulate-suc, length-tabulate, drop-tabulate, wrap_once,
}
use native.Mathlib.Decide.{dec_lt}
use native.Mathlib.Nat.{mod-lt, mod-add-mod}
use zerovisor.Migrate.Channel.{Buffer}

-- The ring has room, the positions are inside it, and the memory is there.
pub record IsValid (b : Buffer) : Type 0 where
  pub nonempty : 0 < b.cap
  pub storage : length b.mem ≡ b.cap
  pub wpos_in : b.wpos < b.cap
  pub len_in : b.len ≤ b.cap

-- The `n` bytes from position `pos` on, going round at `cap`.
abbrev pub window : List ℕ → ℕ → ℕ → ℕ → List ℕ
window mem cap pos n = tabulate n (λ i. get_or mem ((pos + i) % cap) 0)

-- Where the oldest byte stands.
abbrev pub start_of : Buffer → ℕ
start_of b = (b.wpos + b.cap - b.len) % b.cap

abbrev pub contents : Buffer → List ℕ
contents b = window b.mem b.cap (start_of b) b.len

pub length-contents : (b : Buffer) → length (contents b) ≡ b.len
length-contents b = length-tabulate b.len _

-- Moving the start of a window by `k` drops `k` bytes.
pub drop-window :
    (mem : List ℕ) (cap pos n k : ℕ)
    → k ≤ n
    → drop k (window mem cap pos n) ≡ window mem cap ((pos + k) % cap) (n - k)
drop-window mem cap pos n k h =
    drop-tabulate k n _ h ∙ tabulate_ext (n - k) _ _ λ i q. ap (λ j. get_or mem j 0) (shift i)
  where
    shift : (i : ℕ) → (pos + (k + i)) % cap ≡ ((pos + k) % cap + i) % cap
    shift i = rw (mod-add-mod (pos + k) cap i) (ap (λ t. t % cap) (omega arith))

-- Storing one byte.
abbrev pub push : Buffer → ℕ → Buffer
push b x = record b {
  mem = set b.mem b.wpos x;
  wpos = (b.wpos + 1) % b.cap;
  len = min (b.len + 1) b.cap;
}

unfoldable pub pushes : Buffer → List ℕ → Buffer
pushes b [] = b
pushes b (x ∷ xs) = pushes (push b x) xs

pub push-IsValid : {b : Buffer} (x : ℕ) → IsValid b → IsValid (push b x)
push-IsValid {b} x v = record {
  nonempty = v.nonempty;
  storage = length-set b.mem b.wpos x ∙ v.storage;
  wpos_in = mod-lt (b.wpos + 1) v.nonempty;
  len_in = omega arith;
}

pub pushes-IsValid : {b : Buffer} (xs : List ℕ) → IsValid b → IsValid (pushes b xs)
unfolding pushes
pushes-IsValid {b} [] v = v
pushes-IsValid {b} (x ∷ xs) v = pushes-IsValid {b = push b x} xs (push-IsValid x v)

pub pushes-append : (b : Buffer) (xs ys : List ℕ) → pushes b (xs ++ ys) ≡ pushes (pushes b xs) ys
unfolding pushes
pushes-append b [] ys = refl
pushes-append b (x ∷ xs) ys = pushes-append (push b x) xs ys

pub cap-pushes : (b : Buffer) (xs : List ℕ) → (pushes b xs).cap ≡ b.cap
unfolding pushes
cap-pushes b [] = refl
cap-pushes b (x ∷ xs) = cap-pushes (push b x) xs

-- Writing just behind a window makes it longer by that byte.
window-set :
    (mem : List ℕ) (cap pos n w x : ℕ)
    → w < length mem
    → (pos + n) % cap ≡ w
    → ((i : ℕ) → i < n → (pos + i) % cap ≢ w)
    → window (set mem w x) cap pos (suc n) ≡ window mem cap pos n ++ (x ∷ [])
window-set mem cap pos n w x h e ne =
    tabulate-suc n _
    ∙ ap₂ (λ (l : List ℕ) (y : ℕ). l ++ (y ∷ []))
        (tabulate_ext n _ _ λ i p. get_or-set_ne mem w ((pos + i) % cap) x 0 (λ q. ne i p (sym q)))
        (rw e (get_or-set_self mem w x 0 h))

module _ {b : Buffer} (v : IsValid b) where
  open b use {mem, cap, wpos, len}

  start-push_room : (x : ℕ) → len < cap → start_of (push b x) ≡ start_of b
  start-push_room x p = omega (
    arith,
    wrap_once (wpos + 1) cap (omega arith),
    wrap_once ((wpos + 1) % cap + cap - min (len + 1) cap) cap
        (omega (arith, mod-lt (wpos + 1) v.nonempty)),
    wrap_once (wpos + cap - len) cap (omega arith),
  )

  start-push_full : (x : ℕ) → len ≡ cap → start_of (push b x) ≡ (wpos + 1) % cap
  start-push_full x p = omega (
    arith,
    mod-lt (wpos + 1) v.nonempty,
    wrap_once ((wpos + 1) % cap + cap - min (len + 1) cap) cap
        (omega (arith, mod-lt (wpos + 1) v.nonempty)),
  )

  end_of_contents : (start_of b + len) % cap ≡ wpos
  end_of_contents = omega (
    arith,
    wrap_once (wpos + cap - len) cap (omega arith),
    wrap_once (start_of b + len) cap (omega (arith, mod-lt (wpos + cap - len) v.nonempty)),
  )

  before_end : (i : ℕ) → i < len → len < cap → (start_of b + i) % cap ≢ wpos
  before_end i q p = omega (
    arith,
    wrap_once (wpos + cap - len) cap (omega arith),
    wrap_once (start_of b + i) cap (omega (arith, mod-lt (wpos + cap - len) v.nonempty)),
  )

  one_turn : ((wpos + 1) % cap + (cap - 1)) % cap ≡ wpos
  one_turn = omega (
    arith,
    wrap_once (wpos + 1) cap (omega arith),
    wrap_once ((wpos + 1) % cap + (cap - 1)) cap (omega (arith, mod-lt (wpos + 1) v.nonempty)),
  )

  before_turn : (i : ℕ) → i < cap - 1 → ((wpos + 1) % cap + i) % cap ≢ wpos
  before_turn i q = omega (
    arith,
    wrap_once (wpos + 1) cap (omega arith),
    wrap_once ((wpos + 1) % cap + i) cap (omega (arith, mod-lt (wpos + 1) v.nonempty)),
  )

  length-snoc : (x : ℕ) → length (contents b ++ (x ∷ [])) ≡ len + 1
  length-snoc x = omega (arith, length-append (contents b) (x ∷ []), length-contents b)

  contents-push_room : (x : ℕ) → len < cap → contents (push b x) ≡ contents b ++ (x ∷ [])
  contents-push_room x p =
      let n : min (len + 1) cap ≡ suc len = omega arith in
      ap₂ (window (set mem wpos x) cap) (start-push_room x p) n
      ∙ window-set mem cap (start_of b) len wpos x (omega arith) end_of_contents
          (λ i q. before_end i q p)

  contents-push_full : (x : ℕ) → len ≡ cap → contents (push b x) ≡ drop 1 (contents b) ++ (x ∷ [])
  contents-push_full x p =
      let n : min (len + 1) cap ≡ suc (cap - 1) = omega arith in
      let len_eq : cap - 1 ≡ len - 1 = omega arith in
      let one_le : 1 ≤ len = omega arith in
      let wpos_stored : wpos < length mem = omega arith in
      let s : (wpos + 1) % cap ≡ (start_of b + 1) % cap =
        ap (λ (k : ℕ). (k + 1) % cap)
          (omega (arith, wrap_once (wpos + cap - len) cap (omega arith))) in
      ap₂ (window (set mem wpos x) cap) (start-push_full x p) n
      ∙ window-set mem cap ((wpos + 1) % cap) (cap - 1) wpos x wpos_stored one_turn before_turn
      ∙ ap (λ l. l ++ (x ∷ []))
          (ap₂ (window mem cap) s len_eq ∙ sym (drop-window mem cap (start_of b) len 1 one_le))

  -- A stored byte joins the contents at the end, and with a full ring the oldest byte goes.
  pub contents-push : (x : ℕ) → contents (push b x) ≡ last_n cap (contents b ++ (x ∷ []))
  contents-push x = elim (dec_lt len cap) [
    | yes p ↦
        contents-push_room x p
        ∙ ap (λ k. drop k (contents b ++ (x ∷ []))) {x = 0} (omega (arith, length-snoc x))
    | no p ↦
        contents-push_full x (omega arith)
        ∙ sym (drop-append_le 1 (contents b) (x ∷ []) (omega (arith, length-contents b)))
        ∙ ap (λ k. drop k (contents b ++ (x ∷ []))) {x = 1} (omega (arith, length-snoc x))
  ]

-- Of the bytes that are stored one after another, the last `cap` stay.
pub contents-pushes :
    (b : Buffer) (xs : List ℕ)
    → IsValid b
    → contents (pushes b xs) ≡ last_n b.cap (contents b ++ xs)
unfolding pushes
contents-pushes b [] v =
    rw (append-nil (contents b))
      (ap (λ k. drop k (contents b)) {x = 0} (omega (arith, length-contents b)))
contents-pushes b (x ∷ xs) v =
    contents-pushes (push b x) xs (push-IsValid x v)
    ∙ ap (λ l. last_n b.cap (l ++ xs)) (contents-push v x)
    ∙ last_n-append b.cap (contents b ++ (x ∷ [])) xs
    ∙ ap (last_n b.cap) (append_assoc (contents b) (x ∷ []) xs)
