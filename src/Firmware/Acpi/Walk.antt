-- ===== src/Firmware/Acpi/Walk.antt =====
-- The loops over the structures of a table of src/firmware/acpi/mod.rs: they end, they stay inside
-- the table, and they visit the structures that are laid out in it.
use zerovisor.Base.{
  ℕ, zero, suc, ◌+◌, ◌≤◌, ◌<◌, ◌≡◌, refl, ap, ◌∙◌, sym, inl, inr, List, [], ◌∷◌, arith, All, true,
  false, ◌||◌, ltb, leb, Bool-cases,
}
use zerovisor.Firmware.Acpi.{Entry, walk}

module _ (head end : ℕ) (typ_at len_at : ℕ → ℕ) where
  abbrev entry_at : ℕ → Entry
  entry_at off = record { typ = typ_at off; off = off; len = len_at off }

  -- A structure that has room for its head and lies in the table from `start` to `end`.
  abbrev pub Inside : ℕ → Entry → Type 0
  Inside start e =
      (start ≤ e.off)
      × (head ≤ e.len)
      × (e.off + e.len ≤ end)
      × (e.typ ≡ typ_at e.off)
      × (e.len ≡ len_at e.off)

  All-Inside :
      (start start' : ℕ) (es : List Entry)
      → start ≤ start'
      → All (Inside start') es
      → All (Inside start) es
  All-Inside start start' [] h a = tt
  All-Inside start start' (e ∷ es) h a = (omega (arith, a.0), All-Inside start start' es h a.1)

  pub walk-Inside : (fuel off : ℕ) → All (Inside off) (walk fuel head end typ_at len_at off)
  unfolding walk
  walk-Inside zero off = tt
  walk-Inside (suc fuel) off = elim (Bool-cases (leb (off + head) end)) [
    | inr e ↦ rw e tt
    | inl e ↦ elim (Bool-cases (ltb (len_at off) head || ltb end (off + len_at off))) [
      | inl f ↦ rw (e, f) tt
      | inr f ↦
          rw (e, f)
            (
              ground arith,
              All-Inside off (off + len_at off)
                  (walk fuel head end typ_at len_at (off + len_at off)) (omega arith)
                  (walk-Inside fuel (off + len_at off)),
            )
    ]
  ]

  -- More fuel than there are bytes left makes no difference.
  pub walk-fuel :
      (fuel off : ℕ)
      → 0 < head
      → end < off + fuel
      → walk fuel head end typ_at len_at off ≡ walk (suc fuel) head end typ_at len_at off
  unfolding walk
  walk-fuel zero off h f = let out : leb (off + head) end ≡ false = ground arith in rw out refl
  walk-fuel (suc fuel) off h f =
      elim (Bool-cases (ltb (len_at off) head || ltb end (off + len_at off))) [
        | inl e ↦ rw e refl
        | inr e ↦
            let some_len : head ≤ len_at off = ground arith in
            rw (e, walk-fuel fuel (off + len_at off) h (omega arith)) refl
      ]

  -- The structures `es` lie one after another from `off` to the end of the table.
  abbrev pub LaidOut : ℕ → List Entry → Type 0
  LaidOut off [] = end < off + head
  LaidOut off (e ∷ es) =
      (e.off ≡ off)
      × (e.typ ≡ typ_at off)
      × (e.len ≡ len_at off)
      × (head ≤ e.len)
      × (off + e.len ≤ end)
      × LaidOut (off + e.len) es

  -- The walk visits just these.
  pub walk-LaidOut :
      (fuel off : ℕ) (es : List Entry)
      → 0 < head
      → end < off + fuel
      → LaidOut off es
      → walk fuel head end typ_at len_at off ≡ es
  unfolding walk
  walk-LaidOut zero off [] h f l = refl
  walk-LaidOut zero off (e ∷ es) h f l = absurd (omega arith)
  walk-LaidOut (suc fuel) off [] h f l =
      let out : leb (off + head) end ≡ false = ground arith in rw out refl
  walk-LaidOut (suc fuel) off (e ∷ es) h f l =
      let len_is : len_at off ≡ e.len = sym l.2 in
      let room : leb (off + head) end ≡ true = ground arith in
      let good : (ltb (len_at off) head || ltb end (off + len_at off)) ≡ false = ground arith in
      let rest : walk fuel head end typ_at len_at (off + len_at off) ≡ es =
        ap (λ n. walk fuel head end typ_at len_at (off + n)) len_is
        ∙ walk-LaidOut fuel (off + e.len) es h (omega arith) l.5 in
      let first : entry_at off ≡ e = ground arith in rw (room, good, rest) (ap (λ x. x ∷ es) first)
