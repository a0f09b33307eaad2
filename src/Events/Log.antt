-- ===== src/Events/Log.antt =====
-- src/obs/log.rs: the log, its ring of entries, its lines and the level below which it is silent.
pub mod Put
pub mod Lines
pub mod Console
use zerovisor.Base.{
  ℕ, zero, suc, ◌+◌, Bool, true, false, ◌&&◌, List, [], ◌∷◌, ◌++◌, Option, none, some, length, take,
  replicate, ltb, leb, ◌==◌, if◌then◌else◌, ◌>>=◌,
}
use zerovisor.Util.Decimal.{codes}
use zerovisor.Events.{Ring, emit, recent}

pub data Level : Type 0 where
  info warn error : Level

abbrev pub lev_u8 : Level → ℕ
lev_u8 info = 0
lev_u8 warn = 1
lev_u8 error = 2

abbrev pub log_cap : ℕ
log_cap = 256

abbrev pub cat_max : ℕ
cat_max = 24

abbrev pub msg_max : ℕ
msg_max = 160

-- The bytes of an entry up to its lengths, which are all that is read of it.
pub record LogEntry : Type 0 where
  pub level : Level
  pub cat : List ℕ
  pub msg : List ℕ

abbrev pub no_entry : LogEntry
no_entry = record { level = info; cat = []; msg = [] }

pub record Log : Type 0 where
  pub ring : Ring LogEntry
  pub min_level : ℕ

abbrev pub empty_log : Log
empty_log = record { ring = record { slots = replicate log_cap no_entry; widx = 0 }; min_level = 0 }

abbrev pub entry : Level → (category message : List ℕ) → LogEntry
entry level category message = record {
  level = level;
  cat = take cat_max category;
  msg = take msg_max message;
}

unfoldable pub record_to_ring : Level → (category message : List ℕ) → Log → Log
unfolding emit
record_to_ring level category message l = record l {
  ring = emit log_cap (entry level category message) l.ring;
}

abbrev pub level_text : Level → List ℕ
level_text info = codes "INFO"
level_text warn = codes "WARN"
level_text error = codes "ERROR"

-- Bytes into a buffer of 224: where the loop has no guard, a byte past the end panics, which is
-- `none`; where it has one, the byte is left out.
abbrev pub put : List ℕ → List ℕ → Option (List ℕ)
put text line = if leb (length line + length text) 224 then some (line ++ text) else none

unfoldable pub put_guarded : List ℕ → List ℕ → List ℕ
put_guarded [] line = line
put_guarded (c ∷ text) line =
    put_guarded text (if ltb (length line) 224 then line ++ (c ∷ []) else line)

abbrev pub line_head : Level → List ℕ
line_head level = codes "LOG [" ++ (level_text level ++ codes "] {")

-- `str::from_utf8` of the core library, as a test: the number of bytes that must follow a byte, and
-- the bounds of the first of them, which no byte is within for a byte
-- that starts no character.
abbrev pub utf8_follow : ℕ → ℕ × ℕ × ℕ
utf8_follow c =
    if ltb c 0x80
    then (0, 0, 0)
    else if ltb c 0xC2
    then (1, 1, 0)
    else if ltb c 0xE0
    then (1, 0x80, 0xBF)
    else if c == 0xE0
    then (2, 0xA0, 0xBF)
    else if c == 0xED
    then (2, 0x80, 0x9F)
    else if ltb c 0xF0
    then (2, 0x80, 0xBF)
    else if c == 0xF0
    then (3, 0x90, 0xBF)
    else if ltb c 0xF4
    then (3, 0x80, 0xBF)
    else if c == 0xF4
    then (3, 0x80, 0x8F)
    else (1, 1, 0)

-- `left` bytes of a character are still to come, the first of them from `lo` to `hi`.
unfoldable pub utf8_from : (left lo hi : ℕ) → List ℕ → Bool
utf8_from zero lo hi [] = true
utf8_from (suc left) lo hi [] = false
utf8_from zero lo hi (c ∷ text) =
    let (left, lo', hi') = utf8_follow c in utf8_from left lo' hi' text
utf8_from (suc left) lo hi (c ∷ text) = leb lo c && leb c hi && utf8_from left 0x80 0xBF text

unfoldable pub is_utf8 : List ℕ → Bool
unfolding utf8_from
is_utf8 text = utf8_from 0 0 0 text

-- What is written of a line: the end of a line only, if its bytes are not UTF-8.
abbrev pub printable : List ℕ → List ℕ
printable line = if is_utf8 line then line else 0x0D ∷ 0x0A ∷ []

-- The line that `write` prints. Its category and its message are UTF-8, being `str`s, so that a line
-- that is not cut is printed as it is; one that is cut is never printed.
unfoldable pub write_line : Level → (category message : List ℕ) → Option (List ℕ)
unfolding put_guarded
write_line level category message =
    put (codes "} ") (put_guarded category (line_head level)) >>= λ line.
    put (0x0D ∷ 0x0A ∷ []) (put_guarded message line)

-- What a call of `write` leaves on the console.
pub data Output : Type 0 where
  silent panicked : Output
  printed : List ℕ → Output

abbrev pub output_of : Option (List ℕ) → Output
output_of none = panicked
output_of (some line) = printed line

unfoldable pub write : Level → (category message : List ℕ) → Log → Log × Output
unfolding record_to_ring write_line
write level category message l = (
  record_to_ring level category message l,
  if ltb (lev_u8 level) l.min_level then silent else output_of (write_line level category message),
)

-- The bytes of the line of an entry: only the loop over the message has a guard.
unfoldable pub raw_line : LogEntry → Option (List ℕ)
unfolding put_guarded
raw_line e = put e.cat (line_head e.level) >>= λ line.
    put (codes "} ") line >>= λ line. put (0x0D ∷ 0x0A ∷ []) (put_guarded e.msg line)

-- The line that `dump` and `dump_filtered` print.
unfoldable pub log_line : LogEntry → Option (List ℕ)
unfolding raw_line
log_line e = raw_line e >>= λ line. some (printable line)

abbrev pub lower : ℕ → ℕ
lower c = if leb 65 c && leb c 90 then c + 32 else c

-- The test of a category against a prefix, without regard to case.
unfoldable pub match_prefix : (prefix cat : List ℕ) → Bool
match_prefix [] cat = true
match_prefix (p ∷ prefix) [] = false
match_prefix (p ∷ prefix) (c ∷ cat) = if lower c == lower p then match_prefix prefix cat else false

-- The lines of the entries from the level on that match the prefix.
unfoldable pub filtered : (min_level : ℕ) (prefix : List ℕ) → List LogEntry → List (Option (List ℕ))
unfolding log_line match_prefix
filtered min_level prefix [] = []
filtered min_level prefix (e ∷ rest) =
    let later = filtered min_level prefix rest in
    if ltb (lev_u8 e.level) min_level
    then later
    else if match_prefix prefix e.cat
    then log_line e ∷ later
    else later

unfoldable pub dump_filtered : (min_level : ℕ) (prefix : List ℕ) → Log → List (Option (List ℕ))
unfolding filtered recent
dump_filtered min_level prefix l = filtered min_level prefix (recent log_cap no_entry l.ring)

-- `dump` goes over all entries.
unfoldable pub all_lines : List LogEntry → List (Option (List ℕ))
unfolding log_line
all_lines [] = []
all_lines (e ∷ rest) = log_line e ∷ all_lines rest

unfoldable pub dump : Log → List (Option (List ℕ))
unfolding all_lines recent
dump l = all_lines (recent log_cap no_entry l.ring)

-- `dump_with_writer` hands the bytes of each line to its closure as they are.
unfoldable pub raw_lines : List LogEntry → List (Option (List ℕ))
unfolding raw_line
raw_lines [] = []
raw_lines (e ∷ rest) = raw_line e ∷ raw_lines rest

unfoldable pub dump_with_writer : Log → List (Option (List ℕ))
unfolding raw_lines recent
dump_with_writer l = raw_lines (recent log_cap no_entry l.ring)
