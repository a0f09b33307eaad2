-- ===== src/Mm/Toggle.antt =====
-- `ept_toggle_exec` of src/mm/ept.rs: the execution bit of the leaves of a range.
pub mod Keeps
use zerovisor.Base.{
  ℕ, zero, suc, ◌+◌, ◌-◌, ◌%◌, ◌^◌, Bool, not, ltb, ◌==◌, if◌then◌else◌, bit_and, bit_or, ◌<<◌,
  ◌>>◌, u64, sat_add64,
}
use zerovisor.Mm.Memory.{Words, word, store}

-- Where the walk is, the tables, and the count of entries changed.
pub record Toggle : Type 0 where
  pub addr : ℕ
  pub words : Words
  pub changed : ℕ

abbrev pub ept_r : ℕ
ept_r = 1 << 0

abbrev pub ept_x : ℕ
ept_x = 1 << 2

abbrev pub ept_page_size : ℕ
ept_page_size = 1 << 7

abbrev pub lacks : ℕ → ℕ → Bool
lacks entry bit = bit_and entry bit == 0

abbrev pub table_at : ℕ → ℕ
table_at entry = bit_and entry 0x000FFFFFFFFFF000

abbrev pub with_exec : Bool → ℕ → ℕ
with_exec exec entry = if exec then bit_or entry ept_x else bit_and entry (2 ^ 64 - 1 - ept_x)

-- The entry at `p`, written and counted if it changes.
unfoldable pub toggle_entry : Bool → (p : ℕ) → Toggle → Toggle
toggle_entry exec p t =
    let new = with_exec exec (t.words p) in
    if new == t.words p
    then t
    else record t { words = store p new t.words; changed = t.changed + 1 }

abbrev pub skip_by : ℕ → Toggle → Toggle
skip_by size t = record t { addr = sat_add64 t.addr size }

-- After a leaf of `2 ^ k` bytes.
abbrev pub next_leaf : ℕ → Toggle → Toggle
next_leaf k t = record t { addr = u64 (((t.addr >> k) + 1) << k) }

-- The page table at `pt` from entry `l1i` on, with `left` to go.
unfoldable pub toggle_table : (left : ℕ) → Bool → (end pt l1i : ℕ) → Toggle → Toggle
unfolding toggle_entry
toggle_table zero exec end pt l1i t = t
toggle_table (suc left) exec end pt l1i t =
    let t1 = skip_by 4096 (toggle_entry exec (word pt l1i) t) in
    let rest = toggle_table left exec end pt (l1i + 1) t1 in
    if not (ltb t.addr end) then t else if t1.addr % 2 ^ 21 == 0 then t1 else rest

abbrev pub place : ℕ → ℕ → ℕ
place addr k = (addr >> k) % 512

unfoldable pub toggle_directory : Bool → (end pd : ℕ) → Toggle → Toggle
unfolding toggle_table
toggle_directory exec end pd t =
    let p = word pd (place t.addr 21) in
    let pde = t.words p in
    let l1i = place t.addr 12 in
    if not (lacks pde ept_page_size)
    then next_leaf 21 (toggle_entry exec p t)
    else if lacks pde ept_r
    then skip_by (1 << 21) t
    else toggle_table (512 - l1i) exec end (table_at pde) l1i t

unfoldable pub toggle_pointers : Bool → (end pdpt : ℕ) → Toggle → Toggle
unfolding toggle_directory
toggle_pointers exec end pdpt t =
    let p = word pdpt (place t.addr 30) in
    let pdpte = t.words p in
    if not (lacks pdpte ept_page_size)
    then next_leaf 30 (toggle_entry exec p t)
    else if lacks pdpte ept_r
    then skip_by (1 << 30) t
    else toggle_directory exec end (table_at pdpte) t

-- The loop; a round below 2 ^ 63 moves on by a page at least.
unfoldable pub toggle_loop : ℕ → Bool → (end pml4 : ℕ) → Toggle → Toggle
unfolding toggle_pointers
toggle_loop zero exec end pml4 t = t
toggle_loop (suc fuel) exec end pml4 t =
    let pml4e = t.words (word pml4 (place t.addr 39)) in
    let next =
      if lacks pml4e ept_r
      then skip_by (1 << 39) t
      else toggle_pointers exec end (table_at pml4e) t in
    let rest = toggle_loop fuel exec end pml4 next in if ltb t.addr end then rest else t

-- The tables after it and the number of entries changed.
unfoldable pub ept_toggle_exec : (pml4_phys start length : ℕ) → Bool → Words → Words × ℕ
unfolding toggle_loop
ept_toggle_exec pml4_phys start length exec mem =
    let addr = start - start % 4096 in
    let end = sat_add64 start length in
    let t =
      toggle_loop (((end - addr) >> 12) + 1) exec end (table_at pml4_phys)
        (record { addr = addr; words = mem; changed = 0 }) in
    if length == 0 then (mem, 0) else (t.words, t.changed)
