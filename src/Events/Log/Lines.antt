-- ===== src/Events/Log/Lines.antt =====
-- What `dump_filtered` of src/obs/log.rs shows of the calls of `write`.
use zerovisor.Base.{
  ℕ, zero, suc, ◌-◌, ◌≤◌, ◌<◌, ◌^◌, ◌≡◌, refl, ap, ◌∙◌, Bool, true, false, ◌&&◌, ◌==◌, List, [],
  ◌∷◌, ◌++◌, Option, some, arith, length, take, drop, last_n, map, ltb, Bool-cases, inl, inr,
  if◌then◌else◌, length-append, length-take,
}
use zerovisor.Util.Decimal.{codes}
use zerovisor.Events.{recent}
use zerovisor.Events.Recent.{emits, recent-emits}
use zerovisor.Events.Log.{
  Level, LogEntry, Log, no_entry, empty_log, entry, log_cap, line_head, write, record_to_ring,
  lev_u8, lower, raw_line, printable, log_line, filtered, dump_filtered, match_prefix,
}
use zerovisor.Events.Log.Put.{line_text, put_guarded-fits, length-line_head, level_short, put-fits}

-- The line of an entry is never cut: it has what was recorded of the category and the message.
raw_line-entry :
    (level : Level) (category message : List ℕ)
    → raw_line (entry level category message)
      ≡ some (line_text level (take 24 category) (take 160 message))
unfolding raw_line
raw_line-entry level category message =
    let cat = take 24 category in
    let msg = take 160 message in
    let l1 = line_head level ++ cat in
    let l2 = l1 ++ codes "} " in
    let n1 : length l1 ≤ 37 = omega (
      arith,
      length-append (line_head level) cat,
      length-line_head level,
      level_short level,
      length-take 24 category,
    ) in
    let n2 : length l2 ≤ 39 = omega (arith, length-append l1 (codes "} ")) in
    let n3 : length msg ≤ 160 = omega (arith, length-take 160 message) in
    let e1 =
      put-fits cat (line_head level)
        (omega (arith, length-line_head level, level_short level, length-take 24 category)) in
    let e2 = put-fits (codes "} ") l1 (omega arith) in
    let e3 = put_guarded-fits msg l2 (omega arith) in
    let e4 = put-fits (0x0D ∷ 0x0A ∷ []) (l2 ++ msg) (omega (arith, length-append l2 msg)) in
    rw (e1, e2, e3) e4

log_line-entry :
    (level : Level) (category message : List ℕ)
    → log_line (entry level category message)
      ≡ some (printable (line_text level (take 24 category) (take 160 message)))
unfolding log_line
log_line-entry level category message = rw (raw_line-entry level category message) refl

-- Whether two texts are the same.
abbrev pub same : List ℕ → List ℕ → Bool
same [] [] = true
same [] (d ∷ ds) = false
same (c ∷ cs) [] = false
same (c ∷ cs) (d ∷ ds) = (c == d) && same cs ds

-- Whether a text begins with a prefix, both in small letters.
abbrev pub begins : (prefix text : List ℕ) → Bool
begins prefix text = same (take (length prefix) (map lower text)) (map lower prefix)

match_prefix-begins : (prefix text : List ℕ) → match_prefix prefix text ≡ begins prefix text
unfolding match_prefix
match_prefix-begins [] text = refl
match_prefix-begins (p ∷ prefix) [] = refl
match_prefix-begins (p ∷ prefix) (c ∷ text) = elim (Bool-cases (lower c == lower p)) [
  | inl t ↦ rw t (match_prefix-begins prefix text)
  | inr t ↦ rw t refl
]

-- The calls of `write`.
pub record Call : Type 0 where
  pub level : Level
  pub category : List ℕ
  pub message : List ℕ

unfoldable pub writes : List Call → Log → Log
unfolding write
writes [] l = l
writes (c ∷ calls) l = writes calls (write c.level c.category c.message l).0

abbrev pub entry_of : Call → LogEntry
entry_of c = entry c.level c.category c.message

writes-emits :
    (calls : List Call) (l : Log)
    → (writes calls l).ring ≡ emits log_cap (map entry_of calls) l.ring
unfolding writes write record_to_ring emits
writes-emits [] l = refl
writes-emits (c ∷ calls) l = writes-emits calls (record_to_ring c.level c.category c.message l)

-- The calls that `dump_filtered` shows.
abbrev pub wanted : (min_level : ℕ) (prefix : List ℕ) → Call → Bool
wanted min_level prefix c =
    if ltb (lev_u8 c.level) min_level then false else begins prefix (take 24 c.category)

-- Those of the calls that a test holds of, in order.
abbrev pub keep : (Call → Bool) → List Call → List Call
keep p [] = []
keep p (c ∷ calls) = if p c then c ∷ keep p calls else keep p calls

abbrev pub shown : Call → Option (List ℕ)
shown c = some (printable (line_text c.level (take 24 c.category) (take 160 c.message)))

filtered-map :
    (min_level : ℕ) (prefix : List ℕ) (calls : List Call)
    → filtered min_level prefix (map entry_of calls)
      ≡ map shown (keep (wanted min_level prefix) calls)
unfolding filtered
filtered-map min_level prefix [] = refl
filtered-map min_level prefix (c ∷ calls) =
    let line = log_line-entry c.level c.category c.message in
    let rest = filtered-map min_level prefix calls in
    let b = match_prefix-begins prefix (take 24 c.category) in
    elim (Bool-cases (ltb (lev_u8 c.level) min_level)) [
      | inl t ↦ rw t rest
      | inr t ↦ elim (Bool-cases (begins prefix (take 24 c.category))) [
        | inl k ↦ rw (t, b, k, line, rest) refl
        | inr k ↦ rw (t, b, k) rest
      ]
    ]

length-map : (calls : List Call) → length (map entry_of calls) ≡ length calls
length-map [] = refl
length-map (c ∷ calls) = ap suc (length-map calls)

drop-map : (n : ℕ) (calls : List Call) → drop n (map entry_of calls) ≡ map entry_of (drop n calls)
drop-map zero calls = refl
drop-map (suc n) [] = refl
drop-map (suc n) (c ∷ calls) = drop-map n calls

-- From the start on, after less than 2 ^ 64 calls of write, dump_filtered prints, of the last 256
-- of them and in order, a line for each from the level on whose category, up to its first 24 bytes,
-- begins with the prefix, without regard to the case of ASCII letters. The line has the level, the
-- first 24 bytes of the category and the first 160 of the message; where these bytes are not UTF-8,
-- because a character was cut, CR LF alone is printed in its place. It never panics.
pub dump_filtered-writes :
    (calls : List Call) (min_level : ℕ) (prefix : List ℕ)
    → length calls < 2 ^ 64
    → dump_filtered min_level prefix (writes calls empty_log)
      ≡ map shown (keep (wanted min_level prefix) (last_n 256 calls))
unfolding dump_filtered recent
dump_filtered-writes calls min_level prefix h =
    ap (λ r. filtered min_level prefix (recent log_cap no_entry r)) (writes-emits calls empty_log)
    ∙ ap (filtered min_level prefix) (
        recent-emits log_cap no_entry (omega arith) (map entry_of calls) empty_log.ring refl
          (omega (arith, length-map calls)))
    ∙ ap (filtered min_level prefix) (
        ap (λ (n : ℕ). drop (n - log_cap) (map entry_of calls)) (length-map calls)
        ∙ drop-map (length calls - log_cap) calls)
    ∙ filtered-map min_level prefix (last_n 256 calls)
