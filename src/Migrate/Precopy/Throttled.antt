-- ===== src/Migrate/Precopy/Throttled.antt =====
-- `precopy_throttled` of src/migrate/mod.rs, which has loops of its own, and stalls after each page.
use zerovisor.Base.{
  ℕ, zero, suc, ◌+◌, ◌*◌, ◌/◌, Bool, List, [], ◌∷◌, ◌++◌, Option, none, some, ltb, ◌==◌,
  if◌then◌else◌, u64, ◌<<◌,
}
use zerovisor.Migrate.State.{
  Machine, ExportSink, mig_zero_skipped, mig_zero_bytes_saved, mig_hash_skipped,
  mig_hash_bytes_saved,
}
use zerovisor.Migrate.Codec.{header_size}
use zerovisor.Migrate.Sender.{count}
use zerovisor.Migrate.Sink.{all_zero, page_hash}
use zerovisor.Migrate.Export.{export_range}
use zerovisor.Migrate.Tracking.{TrackerState, Tracking, scan_round, cleared, marked}
use zerovisor.Migrate.Precopy.{count_round}

-- Pages and bytes copied, and the microseconds of each stall.
pub record Throttled : Type 0 where
  pub pages : ℕ
  pub bytes : ℕ
  pub stalls : List ℕ

abbrev pub unthrottled : Throttled
unthrottled = record { pages = 0; bytes = 0; stalls = [] }

-- The stalls after `bytes` bytes.
unfoldable pub stall_for_rate : (bytes rate_kbps : ℕ) → List ℕ
stall_for_rate bytes rate_kbps =
    let us = u64 (bytes * 1000) / rate_kbps in
    if rate_kbps == 0 then [] else if ltb 0 us then us ∷ [] else []

-- Its closure.
unfoldable pub throttled_page :
    (ℕ → ℕ) → ExportSink → ℕ → ℕ → Throttled × Machine → Throttled × Machine
throttled_page phys sink rate_kbps page_idx (c, m) =
    let pa = u64 (page_idx << 12) in
    let (m', wrote) = export_range phys pa 4096 sink m in
    let copied : Throttled = record {
      pages = u64 (c.pages + 1);
      bytes = u64 (c.bytes + wrote);
      stalls = c.stalls ++ stall_for_rate (wrote + header_size) rate_kbps;
    } in
    if all_zero phys pa 512 0
    then (c, count mig_zero_bytes_saved 4096 (count mig_zero_skipped 1 m))
    else if page_hash phys pa 512 0 1469598103934665603 == 0
    then (c, count mig_hash_bytes_saved 4096 (count mig_hash_skipped 1 m))
    else (copied, m')

unfoldable pub throttled_pages :
    (ℕ → ℕ) → ExportSink → ℕ → List ℕ → Throttled × Machine → Throttled × Machine
throttled_pages phys sink rate_kbps [] r = r
throttled_pages phys sink rate_kbps (page_idx ∷ rest) r =
    throttled_pages phys sink rate_kbps rest (throttled_page phys sink rate_kbps page_idx r)

-- Its rounds.
unfoldable pub throttled_loop :
    (left : ℕ)
    → (ℕ → ℕ)
    → Bool
    → ExportSink
    → (rate_kbps rounds : ℕ) → Throttled
    → Tracking
    → ℕ × Throttled × Tracking
throttled_loop zero phys clear sink rate_kbps rounds c t = (rounds, c, t)
throttled_loop (suc left) phys clear sink rate_kbps rounds c t =
    let (t1, dirty) = scan_round clear (record t { state = cleared t.state }) in
    let (c2, m2) = throttled_pages phys sink rate_kbps (marked t1.state) (c, t1.machine) in
    let t2 = record t1 { machine = count_round dirty m2 } in
    let rest = throttled_loop left phys clear sink rate_kbps (rounds + 1) c2 t2 in
    if dirty == 0 then (rounds + 1, c, t1) else rest

abbrev pub throttled_of :
    Option TrackerState
    → (max_rounds : ℕ) → (ℕ → ℕ)
    → Bool
    → ExportSink
    → (rate_kbps : ℕ) → Tracking
    → ℕ × Throttled × Tracking
throttled_of none max_rounds phys clear sink rate_kbps t = (0, unthrottled, t)
throttled_of (some st) max_rounds phys clear sink rate_kbps t =
    throttled_loop max_rounds phys clear sink rate_kbps 0 unthrottled t

unfoldable pub precopy_throttled :
    (max_rounds : ℕ)
    → (ℕ → ℕ)
    → Bool
    → ExportSink
    → (rate_kbps : ℕ) → Tracking
    → ℕ × Throttled × Tracking
unfolding throttled_loop
precopy_throttled max_rounds phys clear sink rate_kbps t =
    throttled_of t.state max_rounds phys clear sink rate_kbps t
