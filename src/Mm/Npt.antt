-- ===== src/Mm/Npt.antt =====
-- The builders of src/mm/npt.rs: those of src/mm/ept.rs with the flags of nested page tables.
use zerovisor.Base.{ℕ, Option}
use zerovisor.Mm.Memory.{Memory}
use zerovisor.Mm.Tables.{npt_flags, build_identity_1g, build_identity_2m, build_identity_4k}

unfoldable pub npt_identity_2m : ℕ → Memory → Option (ℕ × Memory)
unfolding build_identity_2m
npt_identity_2m limit m = build_identity_2m npt_flags limit m

unfoldable pub npt_identity_1g : ℕ → Memory → Option (ℕ × Memory)
unfolding build_identity_1g
npt_identity_1g limit m = build_identity_1g npt_flags limit m

unfoldable pub npt_identity_4k : ℕ → Memory → Option (ℕ × Memory)
unfolding build_identity_4k
npt_identity_4k limit m = build_identity_4k npt_flags limit m
