-- ===== src/Mm/Toggle/Keeps.antt =====
-- `ept_toggle_exec` of src/mm/ept.rs changes the execution bit alone.
use zerovisor.Bits.Fields.{and_halves, or_halves, bit_or-zero, bit_and_mask}
use zerovisor.Base.{
  sat_add64, ◌>>◌, either, ℕ, zero, suc, ◌+◌, ◌-◌, ◌*◌, ◌/◌, ◌%◌, ◌^◌, ◌<◌, ◌≡◌, refl, ◌∙◌, sym,
  subst, ==_iff, Bool, true, false, not, arith, Bool-cases, inl, inr, ltb, ◌==◌, if◌then◌else◌,
  bit_and, bit_or, ◌<<◌,
}
use zerovisor.Mm.Memory.{Words, word}
use zerovisor.Mm.Toggle.{
  Toggle, ept_r, ept_x, ept_page_size, lacks, table_at, with_exec, toggle_entry, skip_by,
  toggle_table, place, toggle_directory, toggle_pointers, toggle_loop, ept_toggle_exec,
}

-- The same bits above bit 2 and below it.
pub record SameButExec (x y : ℕ) : Type 0 where
  pub above : x / 8 ≡ y / 8
  pub below : x % 4 ≡ y % 4

clear_exec : (e : ℕ) → e < 2 ^ 64 → bit_and e (2 ^ 64 - 1 - ept_x) ≡ e / 8 * 8 + e % 4
clear_exec e h =
    let top : bit_and (e / 2 / 2 / 2) (2 ^ 61 - 1) ≡ e / 2 / 2 / 2 % 2 ^ 61 =
      bit_and_mask 61 (e / 2 / 2 / 2) in
    omega (
      arith,
      and_halves e 18446744073709551611,
      and_halves (e / 2) 9223372036854775805,
      and_halves (e / 2 / 2) 4611686018427387902,
      top,
    )

set_exec : (e : ℕ) → bit_or e ept_x ≡ e / 8 * 8 + 4 + e % 4
set_exec e = omega (
  arith,
  or_halves e 4,
  or_halves (e / 2) 2,
  or_halves (e / 2 / 2) 1,
  bit_or-zero (e / 2 / 2 / 2),
)

with_exec-Same : (exec : Bool) (e : ℕ) → e < 2 ^ 64 → SameButExec (with_exec exec e) e
with_exec-Same false e h = rw (clear_exec e h) (omega arith)
with_exec-Same true e h = rw (set_exec e) (omega arith)

-- Each word of 64 bits is the same but for its execution bit.
abbrev pub Kept : Words → Words → Type 0
Kept mem new = (a : ℕ) → mem a < 2 ^ 64 → SameButExec (new a) (mem a)

Kept-trans : (l m n : Words) → Kept l m → Kept m n → Kept l n
Kept-trans l m n p q a h =
    let s = p a h in
    let u = q a (omega (arith, s.above)) in
    record { above = u.above ∙ s.above; below = u.below ∙ s.below }

Kept-refl : (m : Words) → Kept m m
Kept-refl m a h = record { above = refl; below = refl }

toggle_entry-Kept : (exec : Bool) (p : ℕ) (t : Toggle) → Kept t.words (toggle_entry exec p t).words
unfolding toggle_entry
toggle_entry-Kept exec p t = elim (Bool-cases (with_exec exec (t.words p) == t.words p)) [
  | inl e ↦ rw e (Kept-refl t.words)
  | inr e ↦ rw e (λ a h. elim (Bool-cases (a == p)) [
    | inl k ↦
        (let same : a ≡ p = (==_iff a p).0 k in
          rw k (
            subst (λ x. SameButExec (with_exec exec (t.words p)) (t.words x)) (sym same)
              (with_exec-Same exec (t.words p) (rw same at h))))
    | inr k ↦ rw k (record { above = refl; below = refl })
  ])
]

toggle_table-Kept :
    (left : ℕ) (exec : Bool) (end pt l1i : ℕ) (t : Toggle)
    → Kept t.words (toggle_table left exec end pt l1i t).words
unfolding toggle_table
toggle_table-Kept zero exec end pt l1i t = Kept-refl t.words
toggle_table-Kept (suc left) exec end pt l1i t =
    let t1 = skip_by 4096 (toggle_entry exec (word pt l1i) t) in
    let one = toggle_entry-Kept exec (word pt l1i) t in
    let rest = toggle_table-Kept left exec end pt (l1i + 1) t1 in
    either (λ (r : Toggle). Kept t.words r.words) (not (ltb t.addr end)) t _
      (λ k. Kept-refl t.words)
      (λ k.
        either (λ (r : Toggle). Kept t.words r.words) (t1.addr % 2 ^ 21 == 0) t1 _ (λ j. one)
          (λ j. Kept-trans t.words t1.words _ one rest))

module _ (exec : Bool) (end : ℕ) where
  toggle_directory-Kept :
      (pd : ℕ) (t : Toggle) → Kept t.words (toggle_directory exec end pd t).words
  unfolding toggle_directory
  toggle_directory-Kept pd t =
      let p = word pd (place t.addr 21) in
      let pde = t.words p in
      let l1i = place t.addr 12 in
      either (λ (r : Toggle). Kept t.words r.words) (not (lacks pde ept_page_size)) _ _
        (λ k. toggle_entry-Kept exec p t)
        (λ k.
          either (λ (r : Toggle). Kept t.words r.words) (lacks pde ept_r) _ _
            (λ j. Kept-refl t.words)
            (λ j. toggle_table-Kept (512 - l1i) exec end (table_at pde) l1i t))

  toggle_pointers-Kept :
      (pdpt : ℕ) (t : Toggle) → Kept t.words (toggle_pointers exec end pdpt t).words
  unfolding toggle_pointers
  toggle_pointers-Kept pdpt t =
      let p = word pdpt (place t.addr 30) in
      let pdpte = t.words p in
      either (λ (r : Toggle). Kept t.words r.words) (not (lacks pdpte ept_page_size)) _ _
        (λ k. toggle_entry-Kept exec p t)
        (λ k.
          either (λ (r : Toggle). Kept t.words r.words) (lacks pdpte ept_r) _ _
            (λ j. Kept-refl t.words) (λ j. toggle_directory-Kept (table_at pdpte) t))

  toggle_loop-Kept :
      (fuel pml4 : ℕ) (t : Toggle) → Kept t.words (toggle_loop fuel exec end pml4 t).words
  unfolding toggle_loop
  toggle_loop-Kept zero pml4 t = Kept-refl t.words
  toggle_loop-Kept (suc fuel) pml4 t =
      let pml4e = t.words (word pml4 (place t.addr 39)) in
      let next =
        if lacks pml4e ept_r
        then skip_by (1 << 39) t
        else toggle_pointers exec end (table_at pml4e) t in
      let one : Kept t.words next.words =
        either (λ (r : Toggle). Kept t.words r.words) (lacks pml4e ept_r) _ _
          (λ k. Kept-refl t.words) (λ k. toggle_pointers-Kept (table_at pml4e) t) in
      either (λ (r : Toggle). Kept t.words r.words) (ltb t.addr end) _ _
        (λ k. Kept-trans t.words next.words _ one (toggle_loop-Kept fuel pml4 next))
        (λ k. Kept-refl t.words)

-- Whatever the tables and the range are, ept_toggle_exec changes nothing in a word of 64 bits but
-- bit 2, the execution bit.
pub ept_toggle_exec-Kept :
    (pml4_phys start length : ℕ) (exec : Bool) (mem : Words)
    → Kept mem (ept_toggle_exec pml4_phys start length exec mem).0
unfolding ept_toggle_exec
ept_toggle_exec-Kept pml4_phys start length exec mem = elim (Bool-cases (length == 0)) [
  | inl e ↦ rw e (Kept-refl mem)
  | inr e ↦
      (let addr = start - start % 4096 in
        let end = sat_add64 start length in
        rw e (
          toggle_loop-Kept exec end (((end - addr) >> 12) + 1) (table_at pml4_phys)
            (record { addr = addr; words = mem; changed = 0 })))
]
