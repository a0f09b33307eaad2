-- ===== src/Mm/Memory.antt =====
-- Physical memory as the 64-bit words at addresses, and the pages that the firmware gives out
-- (`alloc_zeroed_page` of src/mm/ept.rs and src/mm/npt.rs). The pages are an argument: those that
-- `alloc_pages` returns one after another, and none when they are used up.
use zerovisor.Base.{
  ℕ, ◌+◌, ◌*◌, ◌&&◌, List, [], ◌∷◌, Option, none, some, ltb, leb, ◌==◌, if◌then◌else◌,
}

abbrev pub Words : Type 0
Words = ℕ → ℕ

-- `*p = v`
abbrev pub store : ℕ → ℕ → Words → Words
store p v mem a = if a == p then v else mem a

-- `p.add(i)` for a pointer to words.
abbrev pub word : ℕ → ℕ → ℕ
word p i = p + 8 * i

abbrev pub zeroed : ℕ → Words → Words
zeroed page mem a = if leb page a && ltb a (page + 4096) then 0 else mem a

pub record Memory : Type 0 where
  pub words : Words
  pub pages : List ℕ

abbrev pub alloc_from : List ℕ → Words → Option (ℕ × Memory)
alloc_from [] mem = none
alloc_from (page ∷ rest) mem = some (page, record { words = zeroed page mem; pages = rest })

unfoldable pub alloc_zeroed_page : Memory → Option (ℕ × Memory)
alloc_zeroed_page m = alloc_from m.pages m.words

abbrev pub put : ℕ → ℕ → Memory → Memory
put p v m = record m { words = store p v m.words }
