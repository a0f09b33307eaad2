-- ===== src/Events/Log/Console.antt =====
-- What `write` of src/obs/log.rs leaves on the console.
use zerovisor.Base.{
  ℕ, ◌+◌, ◌≤◌, ◌<◌, ◌≡◌, refl, List, [], ◌∷◌, ◌++◌, none, some, arith, length, ltb, leb, Bool-cases,
  inl, inr, if◌then◌else◌, leb→le, length-append,
}
use native.Mathlib.Decide.{dec_le}
use zerovisor.Util.Decimal.{codes}
use zerovisor.Events.Log.{
  Level, Log, panicked, printed, silent, line_head, put_guarded, write_line, write, record_to_ring,
  lev_u8,
}
use zerovisor.Events.Log.Put.{
  line_text, length-put_guarded, put_guarded-fits, length-line_head, level_short, put-fits,
  put-none,
}

length-line_text :
    (level : Level) (category message : List ℕ)
    → length (line_text level category message)
      ≡ length (line_head level) + length category + 2 + length message + 2
length-line_text level category message = omega (
  arith,
  length-append (((line_head level ++ category) ++ codes "} ") ++ message) (0x0D ∷ 0x0A ∷ []),
  length-append ((line_head level ++ category) ++ codes "} ") message,
  length-append (line_head level ++ category) (codes "} "),
  length-append (line_head level) category,
)

module _ (level : Level) (category message : List ℕ) where
  head_short : length (line_head level) ≤ 13
  head_short = omega (arith, length-line_head level, level_short level)

  -- A line of at most 224 bytes is written whole.
  write_line-fits :
      length (line_text level category message) ≤ 224
      → write_line level category message ≡ some (line_text level category message)
  unfolding write_line
  write_line-fits h =
      let l1 = line_head level ++ category in
      let l2 = l1 ++ codes "} " in
      let n = length-line_text level category message in
      let n1 = length-append (line_head level) category in
      let n2 = length-append l1 (codes "} ") in
      let e1 = put_guarded-fits category (line_head level) (omega arith) in
      let e2 = put-fits (codes "} ") l1 (omega arith) in
      let e3 = put_guarded-fits message l2 (omega arith) in
      let e4 =
        put-fits (0x0D ∷ 0x0A ∷ []) (l2 ++ message) (omega (arith, length-append l2 message)) in
      rw (e1, e2, e3) e4

  -- A longer one is not: a byte without a guard comes after the end.
  write_line-long :
      224 < length (line_text level category message) → write_line level category message ≡ none
  unfolding write_line
  write_line-long h = elim (dec_le (length (line_head level) + length category) 222) [
    | yes p ↦
        (let l1 = line_head level ++ category in
          let l2 = l1 ++ codes "} " in
          let n = length-line_text level category message in
          let n1 = length-append (line_head level) category in
          let n2 = length-append l1 (codes "} ") in
          let e1 = put_guarded-fits category (line_head level) (omega arith) in
          let e2 = put-fits (codes "} ") l1 (omega arith) in
          let e3 =
            put-none (0x0D ∷ 0x0A ∷ []) (put_guarded message l2)
              (omega (arith, length-put_guarded message l2 (omega arith))) in
          rw (e1, e2) e3)
    | no p ↦
        (let l1 = put_guarded category (line_head level) in
          let n1 = length-put_guarded category (line_head level) (omega (arith, head_short)) in
          let e1 = put-none (codes "} ") l1 (omega arith) in rw e1 refl)
  ]

-- Every call of write is recorded. Below the minimal level it prints nothing; otherwise it prints
-- its whole line if that has at most 224 bytes, and panics, past the end of the buffer, if not.
pub write-console :
    (level : Level) (category message : List ℕ) (l : Log)
    → write level category message l ≡ (
      record_to_ring level category message l,
      if ltb (lev_u8 level) l.min_level
          then silent
          else if leb (length (line_text level category message)) 224
          then printed (line_text level category message)
          else panicked,
    )
unfolding write
write-console level category message l =
    elim (Bool-cases (leb (length (line_text level category message)) 224)) [
      | inl t ↦ rw (t, write_line-fits level category message (leb→le _ _ t)) refl
      | inr t ↦ rw (t, write_line-long level category message (ground (arith, t))) refl
    ]
