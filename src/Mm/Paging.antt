-- ===== src/Mm/Paging.antt =====
-- src/mm/paging.rs: the identity-mapped tables of the processor, built as those of src/mm/ept.rs with
-- other flags.
use zerovisor.Base.{ℕ, Option, bit_or, ◌<<◌}
use zerovisor.Mm.Memory.{Memory}
use zerovisor.Mm.Tables
use zerovisor.Mm.Tables.{Flags}

-- `PTE_P`, `PTE_RW` and `PTE_PS`
abbrev pub native_flags : Flags
native_flags = record {
  link = bit_or (1 << 0) (1 << 1);
  large = bit_or (bit_or (1 << 0) (1 << 1)) (1 << 7);
  small = bit_or (1 << 0) (1 << 1);
}

unfoldable pub build_identity_2m : ℕ → Memory → Option (ℕ × Memory)
build_identity_2m limit m = Tables.build_identity_2m native_flags limit m
