-- ===== src/Migrate/Precopy.antt =====
-- The loops of src/migrate/mod.rs that scan and copy without frames: `precopy` and
-- `export_dirty_runs`. The memory that is copied is `phys`, byte by byte.
pub mod Rounds
pub mod Delivered
pub mod Throttled
pub mod Elision
use zerovisor.Base.{
  ℕ, zero, suc, ◌+◌, ◌*◌, Bool, List, [], ◌∷◌, Option, none, some, ◌==◌, if◌then◌else◌, u64, ◌<<◌,
}
use zerovisor.Migrate.State.{
  Machine, ExportSink, mig_precopy_rounds, mig_precopy_pages, mig_bytes_tx, mig_zero_skipped,
  mig_zero_bytes_saved, mig_hash_skipped, mig_hash_bytes_saved,
}
use zerovisor.Migrate.Sender.{count}
use zerovisor.Migrate.Sink.{all_zero, page_hash}
use zerovisor.Migrate.Export.{export_range}
use zerovisor.Migrate.Tracking.{
  TrackerState, Tracking, scan_round, cleared, marked, plan_dirty_runs,
}

-- Pages and bytes copied.
pub record Copied : Type 0 where
  pub pages : ℕ
  pub bytes : ℕ

abbrev pub no_copies : Copied
no_copies = record { pages = 0; bytes = 0 }

-- `h ^= v; h = h.wrapping_mul(..)` over the 512 words of a page, from the FNV offset basis.
abbrev pub hash_of : (ℕ → ℕ) → ℕ → ℕ
hash_of phys pa = page_hash phys pa 512 0 1469598103934665603

abbrev pub zero_skipped : Machine → Machine
zero_skipped m = count mig_zero_bytes_saved 4096 (count mig_zero_skipped 1 m)

abbrev pub hash_skipped : Machine → Machine
hash_skipped m = count mig_hash_bytes_saved 4096 (count mig_hash_skipped 1 m)

-- The closure of `precopy`: a page of zeros, or whose hash is 0, is left out.
unfoldable pub copy_page : (ℕ → ℕ) → ExportSink → ℕ → Copied × Machine → Copied × Machine
copy_page phys sink page_idx (c, m) =
    let pa = u64 (page_idx << 12) in
    let (m', wrote) = export_range phys pa 4096 sink m in
    let copied : Copied = record { pages = u64 (c.pages + 1); bytes = u64 (c.bytes + wrote) } in
    if all_zero phys pa 512 0
    then (c, zero_skipped m)
    else if hash_of phys pa == 0
    then (c, hash_skipped m)
    else (copied, m')

unfoldable pub copy_pages : (ℕ → ℕ) → ExportSink → List ℕ → Copied × Machine → Copied × Machine
copy_pages phys sink [] r = r
copy_pages phys sink (page_idx ∷ rest) r =
    copy_pages phys sink rest (copy_page phys sink page_idx r)

-- What a round that copied is counted as.
abbrev pub count_round : ℕ → Machine → Machine
count_round dirty m =
    count mig_bytes_tx (u64 (dirty * 4096))
      (count mig_precopy_pages dirty (count mig_precopy_rounds 1 m))

-- The rounds of `precopy`: the rounds done, the copies and the state.
unfoldable pub rounds_loop :
    (left : ℕ)
    → (ℕ → ℕ)
    → Bool
    → ExportSink
    → (rounds : ℕ) → Copied
    → Tracking
    → ℕ × Copied × Tracking
rounds_loop zero phys clear sink rounds c t = (rounds, c, t)
rounds_loop (suc left) phys clear sink rounds c t =
    let (t1, dirty) = scan_round clear (record t { state = cleared t.state }) in
    let (c2, m2) = copy_pages phys sink (marked t1.state) (c, t1.machine) in
    let t2 = record t1 { machine = count_round dirty m2 } in
    let rest = rounds_loop left phys clear sink (rounds + 1) c2 t2 in
    if dirty == 0 then (rounds + 1, c, t1) else rest

abbrev pub rounds_of :
    Option TrackerState
    → (max_rounds : ℕ) → (ℕ → ℕ)
    → Bool
    → ExportSink
    → Tracking
    → ℕ × Copied × Tracking
rounds_of none max_rounds phys clear sink t = (0, no_copies, t)
rounds_of (some st) max_rounds phys clear sink t =
    rounds_loop max_rounds phys clear sink 0 no_copies t

unfoldable pub precopy :
    (max_rounds : ℕ) → (ℕ → ℕ) → Bool → ExportSink → Tracking → ℕ × Copied × Tracking
unfolding rounds_loop
precopy max_rounds phys clear sink t = rounds_of t.state max_rounds phys clear sink t

unfoldable pub export_pages : (ℕ → ℕ) → ExportSink → List ℕ → Copied → Machine → Copied × Machine
export_pages phys sink [] c m = (c, m)
export_pages phys sink (page_idx ∷ rest) c m =
    let (m', wrote) = export_range phys (u64 (page_idx << 12)) 4096 sink m in
    export_pages phys sink rest
      (record { pages = u64 (c.pages + 1); bytes = u64 (c.bytes + wrote) }) m'

abbrev pub export_of : Option TrackerState → (ℕ → ℕ) → ExportSink → Tracking → ℕ × Copied × Tracking
export_of none phys sink t = (0, no_copies, t)
export_of (some st) phys sink t =
    let (t1, _) = plan_dirty_runs t in
    let (c, m) = export_pages phys sink (marked t1.state) no_copies t1.machine in
    (1, c, record t1 { machine = m })

unfoldable pub export_dirty_runs : (ℕ → ℕ) → ExportSink → Tracking → ℕ × Copied × Tracking
unfolding plan_dirty_runs export_pages
export_dirty_runs phys sink t = export_of t.state phys sink t
