-- ===== src/Mm/Tables/Identity.antt =====
-- A table of 1 GiB leaves maps every address below the limit to itself.
use native.Mathlib.Decide.{dec_lt}
use zerovisor.Base.{
  ℕ, zero, suc, ◌+◌, ◌-◌, ◌*◌, ◌/◌, ◌%◌, ◌^◌, ◌≤◌, ◌<◌, ◌≡◌, ◌≢◌, refl, ap, ap₂, ◌∙◌, sym, ◌⊎◌, inl,
  true, false, List, ◌∷◌, Option, none, some, arith, leb, ◌==◌, if◌then◌else◌, bit_and, bit_or, u64,
  ◌<<◌,
}
use zerovisor.Bits.Fields.{bit_and_mask, bit_or_shifted, bit_and_shifted}
use zerovisor.Mm.Memory.{Words, word, store, zeroed, Memory, alloc_zeroed_page, put}
use zerovisor.Mm.Tables.{Flags, num_gb, fill, top_tables, build_identity_1g}

-- The page that an entry points to.
abbrev pub frame : ℕ → ℕ
frame e = e / 2 ^ 12 % 2 ^ 40 * 2 ^ 12

-- The walk of the processor through four levels, for reading: the address that `x` is mapped to.
unfoldable pub walk : Words → ℕ → ℕ → Option ℕ
walk mem pml4 x =
    let e4 = mem (word pml4 (x / 2 ^ 39 % 512)) in
    let e3 = mem (word (frame e4) (x / 2 ^ 30 % 512)) in
    let e2 = mem (word (frame e3) (x / 2 ^ 21 % 512)) in
    let e1 = mem (word (frame e2) (x / 2 ^ 12 % 512)) in
    if e4 % 2 == 0
    then none
    else if e3 % 2 == 0
    then none
    else if e3 / 2 ^ 7 % 2 == 1
    then some (e3 / 2 ^ 30 % 2 ^ 22 * 2 ^ 30 + x % 2 ^ 30)
    else if e2 % 2 == 0
    then none
    else if e2 / 2 ^ 7 % 2 == 1
    then some (e2 / 2 ^ 21 % 2 ^ 31 * 2 ^ 21 + x % 2 ^ 21)
    else if e1 % 2 == 0
    then none
    else some (frame e1 + x % 2 ^ 12)

-- Filling touches the entries from `i` on alone.
fill-outside :
    (mask flags size limit table n i phys a : ℕ) (m : Memory)
    → (a < word table i) ⊎ (word table (i + n) ≤ a)
    → (fill mask flags size limit table n i phys m).words a ≡ m.words a
unfolding fill
fill-outside mask flags size limit table zero i phys a m h = refl
fill-outside mask flags size limit table (suc n) i phys a m h =
    let m' = put (word table i) (bit_or (bit_and phys mask) flags) m in
    let later : (a < word table (i + 1)) ⊎ (word table (i + 1 + n) ≤ a) = ground arith in
    let rest = fill-outside mask flags size limit table n (i + 1) (u64 (phys + size)) a m' later in
    ground (arith, rest)

-- The leaf of the `i`-th chunk.
leaf-eq :
    (i flags : ℕ)
    → i < 512
    → flags < 2 ^ 30
    → bit_or (bit_and (i * 2 ^ 30) 0x000FFFFFC0000000) flags ≡ i * 2 ^ 30 + flags
leaf-eq i flags h f =
    let mask : bit_and (i * 2 ^ 30) ((2 ^ 22 - 1) * 2 ^ 30) ≡ i * 2 ^ 30 =
      bit_and_shifted 30 (i * 2 ^ 30) (2 ^ 22 - 1)
      ∙ ap (λ t. t * 2 ^ 30) (bit_and_mask 22 (i * 2 ^ 30 / 2 ^ 30) ∙ omega arith) in
    ap (λ t. bit_or t flags) mask ∙ bit_or_shifted 30 i flags f

-- The entry of each chunk that begins below the limit.
fill-entry :
    (flags limit table n i k : ℕ) (m : Memory)
    → flags < 2 ^ 30
    → i + n ≤ 512
    → i ≤ k
    → k < i + n
    → k * 2 ^ 30 < limit
    → (fill 0x000FFFFFC0000000 flags (1 << 30) limit table n i (i * 2 ^ 30) m).words (word table k)
      ≡ k * 2 ^ 30 + flags
unfolding fill
fill-entry flags limit table zero i k m f b lo hi below = absurd (omega arith)
fill-entry flags limit table (suc n) i k m f b lo hi below =
    let m' = put (word table i) (bit_or (bit_and (i * 2 ^ 30) 0x000FFFFFC0000000) flags) m in
    let next : u64 (i * 2 ^ 30 + (1 << 30)) ≡ (i + 1) * 2 ^ 30 = omega arith in
    elim (dec_lt i k) [
      | yes p ↦
          let go : leb limit ((i + 1) * 2 ^ 30) ≡ false = ground arith in
          rw (next, go)
            (fill-entry flags limit table n (i + 1) k m' f (omega arith) (omega arith) (omega arith)
              below)
      | no p ↦
          let same : k ≡ i = omega arith in
          let now : m'.words (word table k) ≡ k * 2 ^ 30 + flags =
            rw same (ground (arith, leaf-eq i flags (omega arith) f)) in
          let rest =
            fill-outside 0x000FFFFFC0000000 flags (1 << 30) limit table n (i + 1) ((i + 1) * 2 ^ 30)
              (word table k) m' (inl (omega arith)) in
          rw next (ground (arith, now, rest))
    ]

-- The walk over a directory of 1 GiB leaves.
walk-leaf :
    (mem : Words) (p x e4 e3 : ℕ)
    → mem (word p (x / 2 ^ 39 % 512)) ≡ e4
    → mem (word (frame e4) (x / 2 ^ 30 % 512)) ≡ e3
    → e4 % 2 ≡ 1
    → e3 % 2 ≡ 1
    → e3 / 2 ^ 7 % 2 ≡ 1
    → walk mem p x ≡ some (e3 / 2 ^ 30 % 2 ^ 22 * 2 ^ 30 + x % 2 ^ 30)
unfolding walk
walk-leaf mem p x e4 e3 a b c d l = rw (a, b, c, d, l) refl

module _ (f : Flags) (limit p q x : ℕ) (rest : List ℕ) (m : Memory) (link_fits : f.link < 4096)
    (link_present : f.link % 2 ≡ 1) (large_fits : f.large < 2 ^ 30)
    (large_present : f.large % 2 ≡ 1) (large_leaf : f.large / 2 ^ 7 % 2 ≡ 1)
    (limit_fits : limit ≤ 2 ^ 39) (given : m.pages ≡ p ∷ q ∷ rest) (p_aligned : p % 4096 ≡ 0)
    (q_aligned : q % 4096 ≡ 0) (q_fits : q < 2 ^ 52) (apart : p ≢ q) (below : x < limit) where
  abbrev linked : Memory
  linked = record { words = store p (bit_or q f.link) (zeroed q (zeroed p m.words)); pages = rest }

  abbrev built : Memory
  built = fill 0x000FFFFFC0000000 f.large (1 << 30) limit q (num_gb limit) 0 0 linked

  built-eq : build_identity_1g f limit m ≡ some (p, built)
  unfolding build_identity_1g top_tables alloc_zeroed_page
  built-eq = let some_limit : (limit == 0) ≡ false = ground arith in rw (some_limit, given) refl

  link-eq : bit_or q f.link ≡ q + f.link
  link-eq =
      let page : q / 2 ^ 12 * 2 ^ 12 ≡ q = omega arith in
      let joined = bit_or_shifted 12 (q / 2 ^ 12) f.link link_fits in
      ap (λ t. bit_or t f.link) (sym page) ∙ joined ∙ ap (λ t. t + f.link) page

  gigabytes : (num_gb limit ≤ 512) × (x / 2 ^ 30 < num_gb limit)
  gigabytes = omega arith

  top_entry : built.words (word p 0) ≡ q + f.link
  top_entry =
      fill-outside 0x000FFFFFC0000000 f.large (1 << 30) limit q (num_gb limit) 0 0 (word p 0) linked
        (ground (arith, gigabytes))
      ∙ (let hit : (p + 8 * 0 == p) ≡ true = ground arith in rw hit link-eq)

  leaf_entry : built.words (word q (x / 2 ^ 30)) ≡ x / 2 ^ 30 * 2 ^ 30 + f.large
  leaf_entry =
      fill-entry f.large limit q (num_gb limit) 0 (x / 2 ^ 30) linked large_fits
        (omega (arith, gigabytes)) (omega arith) (omega (arith, gigabytes)) (omega arith)

  walked : walk built.words p x ≡ some x
  walked =
      let first : x / 2 ^ 39 % 512 ≡ 0 = omega arith in
      let second : x / 2 ^ 30 % 512 ≡ x / 2 ^ 30 = omega arith in
      let there : frame (q + f.link) ≡ q = omega arith in
      walk-leaf built.words p x (q + f.link) (x / 2 ^ 30 * 2 ^ 30 + f.large)
        (ap (λ i. built.words (word p i)) first ∙ top_entry)
        (ap₂ (λ t i. built.words (word t i)) there second ∙ leaf_entry) (omega arith) (omega arith)
        (omega arith)
      ∙ ap some (omega arith)

  -- `build_identity_1g` succeeds with the first page that it is given as the top table, and the
  -- walk of the processor maps every address below the limit to itself.
  pub build_identity_1g-walk :
      (m' : Memory) × (build_identity_1g f limit m ≡ some (p, m')) × (walk m'.words p x ≡ some x)
  build_identity_1g-walk = (built, built-eq, walked)
