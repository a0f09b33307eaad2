-- ===== src/Events/Log/Put.antt =====
-- The writes into a line of src/obs/log.rs, with and without a guard.
use zerovisor.Base.{
  ℕ, ◌+◌, ◌≤◌, ◌<◌, ◌≡◌, refl, ◌∙◌, sym, min, true, false, List, [], ◌∷◌, ◌++◌, none, some, arith,
  length, ltb, leb, Bool-cases, inl, inr, length-append, append_assoc, append-nil,
}
use zerovisor.Util.Decimal.{codes}
use zerovisor.Events.Log.{Level, info, warn, error, level_text, line_head, put, put_guarded}

pub length-put_guarded :
    (text line : List ℕ)
    → length line ≤ 224
    → length (put_guarded text line) ≡ min (length line + length text) 224
unfolding put_guarded
length-put_guarded [] line h = omega arith
length-put_guarded (c ∷ text) line h = elim (Bool-cases (ltb (length line) 224)) [
  | inl t ↦ rw t (
      let n : length (line ++ (c ∷ [])) ≡ length line + 1 = length-append line (c ∷ []) in
      length-put_guarded text (line ++ (c ∷ [])) (ground (arith, n, t)) ∙ ground (arith, n, t))
  | inr t ↦ rw t (length-put_guarded text line h ∙ ground (arith, t))
]

-- A text for which there is room is put whole.
pub put_guarded-fits :
    (text line : List ℕ) → length line + length text ≤ 224 → put_guarded text line ≡ line ++ text
unfolding put_guarded
put_guarded-fits [] line h = sym (append-nil line)
put_guarded-fits (c ∷ text) line h =
    let t : ltb (length line) 224 ≡ true = ground arith in
    rw t (
      put_guarded-fits text (line ++ (c ∷ [])) (omega (arith, length-append line (c ∷ [])))
      ∙ append_assoc line (c ∷ []) text)

pub length-line_head : (level : Level) → length (line_head level) ≡ 8 + length (level_text level)
length-line_head info = refl
length-line_head warn = refl
length-line_head error = refl

pub level_short : (level : Level) → length (level_text level) ≤ 5
level_short info = omega arith
level_short warn = omega arith
level_short error = omega arith

-- What a line says.
abbrev pub line_text : Level → (category message : List ℕ) → List ℕ
line_text level category message =
    (((line_head level ++ category) ++ codes "} ") ++ message) ++ (0x0D ∷ 0x0A ∷ [])

pub put-fits :
    (text line : List ℕ) → length line + length text ≤ 224 → put text line ≡ some (line ++ text)
put-fits text line h =
    let t : leb (length line + length text) 224 ≡ true = ground arith in rw t refl

pub put-none : (text line : List ℕ) → 224 < length line + length text → put text line ≡ none
put-none text line h =
    let t : leb (length line + length text) 224 ≡ false = ground arith in rw t refl
