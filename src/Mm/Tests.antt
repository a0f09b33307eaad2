-- ===== src/Mm/Tests.antt =====
-- Runs of src/mm at concrete inputs.
use zerovisor.Base.{ℕ, ◌==◌, if◌then◌else◌, ◌≡◌, ◌^◌, refl, false, [], ◌∷◌, some, arith}
use zerovisor.Mm.Memory.{Memory}
use zerovisor.Mm.Toggle.{ept_toggle_exec}
use zerovisor.Mm.Toggle.Keeps.{Kept, ept_toggle_exec-Kept}
use zerovisor.Mm.Tables.{ept_flags, build_identity_1g}
use zerovisor.Mm.Tables.Identity.{walk, build_identity_1g-walk}

abbrev blank : Memory
blank = record { words = λ a. 0; pages = 0x5000 ∷ 0x9000 ∷ [] }

-- Two gigabytes, and an address in the second.
build_identity_1g-walk_example :
    (m' : Memory) × (build_identity_1g (ept_flags false) (2 ^ 31) blank ≡ some (0x5000, m'))
    × (walk m'.words 0x5000 0x4567ABCD ≡ some 0x4567ABCD)
build_identity_1g-walk_example =
    build_identity_1g-walk (ept_flags false) (2 ^ 31) 0x5000 0x9000 0x4567ABCD [] blank
      (omega arith) refl (omega arith) refl refl (omega arith) refl refl refl (omega arith)
      (omega arith) (omega arith)

-- A top table at 0x5000 with one table at 0x6000, whose first entry is a leaf of a gigabyte.
abbrev gigabyte : ℕ → ℕ
gigabyte a = if a == 0x5000 then 0x6007 else if a == 0x6000 then 0x87 else 0

toggled : (ept_toggle_exec 0x5000 0x3000 0x2000 false gigabyte).1 ≡ 1
unfolding ept_toggle_exec
toggled = refl

ept_toggle_exec-Kept_example : Kept gigabyte (ept_toggle_exec 0x5000 0x3000 0x2000 false gigabyte).0
ept_toggle_exec-Kept_example = ept_toggle_exec-Kept 0x5000 0x3000 0x2000 false gigabyte
