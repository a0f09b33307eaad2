-- ===== src/Events.antt =====
-- The event rings of src/diag/audit.rs, src/obs/trace.rs and src/obs/log.rs: a fixed array that is
-- written round and round, and read from the oldest event that is still there.
pub mod Recent
pub mod Audit
pub mod Trace
pub mod Log
pub mod Tests
use zerovisor.Base.{ℕ, ◌+◌, ◌-◌, ◌%◌, ◌^◌, List, get_or, set, tabulate}

-- The array and the write index, of `cap` entries.
pub record Ring (E : Type 0) : Type 0 where
  pub slots : List E
  pub widx : ℕ

-- `record` and `emit`: `fetch_add` gives the index before the addition.
unfoldable pub emit : {E : Type 0} → ℕ → E → Ring E → Ring E
emit cap e r = record { slots = set r.slots (r.widx % cap) e; widx = (r.widx + 1) % 2 ^ 64 }

-- The `n` entries from index `start` on.
abbrev pub between : {E : Type 0} → ℕ → E → List E → ℕ → ℕ → List E
between cap first slots start n = tabulate n (λ i. get_or slots ((start + i) % cap) first)

-- The events that a dump reads, in order; `first` stands for what an index out of range would
-- read, and there is none.
unfoldable pub recent : {E : Type 0} → ℕ → E → Ring E → List E
recent cap first r = let start = r.widx - cap in between cap first r.slots start (r.widx - start)
