-- ===== src/Migrate/Precopy/Rounds.antt =====
-- The rounds of `precopy` and `precopy_throttled` in src/migrate/mod.rs.
use zerovisor.Base.{
  u64, ◌<<◌, ℕ, zero, suc, ◌+◌, ◌*◌, ◌≤◌, ◌≡◌, refl, ap, Bool, List, [], ◌∷◌, Option, none, some,
  arith, Bool-cases, inl, inr, ◌==◌,
}
use zerovisor.Migrate.State.{Machine, ExportSink}
use zerovisor.Migrate.Sink.{all_zero}
use zerovisor.Migrate.Export.Delivered.{export_range-total}
use zerovisor.Migrate.Tracking.{TrackerState, Tracking, scan_round, cleared, marked}
use zerovisor.Migrate.Precopy.{
  Copied, no_copies, hash_of, copy_page, copy_pages, count_round, rounds_loop, rounds_of, precopy,
}
use zerovisor.Migrate.Precopy.Throttled.{
  Throttled, unthrottled, throttled_page, throttled_pages, throttled_loop, throttled_of,
  precopy_throttled,
}

-- Results of the two closures that differ in the stalls alone, with 4096 bytes for each page.
pub record Alike (x : Throttled × Machine) (y : Copied × Machine) : Type 0 where
  pub pages : x.0.pages ≡ y.0.pages
  pub bytes : x.0.bytes ≡ y.0.bytes
  pub counted : y.0.bytes ≡ u64 (4096 * y.0.pages)
  pub machine : x.1 ≡ y.1

-- Outcomes of the two loops that differ in the stalls alone, with 4096 bytes for each page.
pub record Agree (x : ℕ × Throttled × Tracking) (y : ℕ × Copied × Tracking) : Type 0 where
  pub rounds : x.0 ≡ y.0
  pub pages : x.1.pages ≡ y.1.pages
  pub bytes : x.1.bytes ≡ y.1.bytes
  pub counted : y.1.bytes ≡ u64 (4096 * y.1.pages)
  pub state : x.2 ≡ y.2

module _ (phys : ℕ → ℕ) (sink : ExportSink) (rate : ℕ) where
  throttled_page-Alike :
      (idx : ℕ) (x : Throttled × Machine) (y : Copied × Machine)
      → Alike x y
      → Alike (throttled_page phys sink rate idx x) (copy_page phys sink idx y)
  unfolding throttled_page copy_page
  throttled_page-Alike idx (c, m) (d, n) a =
      let same = a.machine in
      let pa = u64 (idx << 12) in
      let wrote = export_range-total phys pa 4096 sink n (omega arith) in
      rw same (elim (Bool-cases (all_zero phys pa 512 0)) [
        | inl t ↦
            rw t (record { pages = a.pages; bytes = a.bytes; counted = a.counted; machine = refl })
        | inr t ↦ elim (Bool-cases (hash_of phys pa == 0)) [
          | inl k ↦
              rw (t, k)
                (record { pages = a.pages; bytes = a.bytes; counted = a.counted; machine = refl })
          | inr k ↦
              rw (t, k, wrote)
                (record {
                  pages = ap (λ k. u64 (k + 1)) a.pages;
                  bytes = ap (λ k. u64 (k + 4096)) a.bytes;
                  counted = omega (arith, a.counted);
                  machine = refl;
                })
        ]
      ])

  throttled_pages-Alike :
      (pages : List ℕ) (x : Throttled × Machine) (y : Copied × Machine)
      → Alike x y
      → Alike (throttled_pages phys sink rate pages x) (copy_pages phys sink pages y)
  unfolding throttled_pages copy_pages
  throttled_pages-Alike [] x y a = a
  throttled_pages-Alike (idx ∷ rest) x y a =
      throttled_pages-Alike rest (throttled_page phys sink rate idx x) (copy_page phys sink idx y)
        (throttled_page-Alike idx x y a)

  throttled_loop-Agree :
      (left : ℕ) (clear : Bool) (rounds : ℕ) (c : Throttled) (d : Copied) (t : Tracking)
      → c.pages ≡ d.pages
      → c.bytes ≡ d.bytes
      → d.bytes ≡ u64 (4096 * d.pages)
      → Agree
          (throttled_loop left phys clear sink rate rounds c t)
          (rounds_loop left phys clear sink rounds d t)
  unfolding throttled_loop rounds_loop
  throttled_loop-Agree zero clear rounds c d t p q k = record {
    rounds = refl;
    pages = p;
    bytes = q;
    counted = k;
    state = refl;
  }
  throttled_loop-Agree (suc left) clear rounds c d t p q k =
      let (t1, dirty) = scan_round clear (record t { state = cleared t.state }) in
      let a =
        throttled_pages-Alike (marked t1.state) (c, t1.machine) (d, t1.machine)
          (record { pages = p; bytes = q; counted = k; machine = refl }) in
      elim (Bool-cases (dirty == 0)) [
        | inl e ↦ rw e (record { rounds = refl; pages = p; bytes = q; counted = k; state = refl })
        | inr e ↦
            rw (e, a.machine)
              (throttled_loop-Agree left clear (rounds + 1) _ _ _ a.pages a.bytes a.counted)
      ]

  rounds_loop-within :
      (left : ℕ) (clear : Bool) (rounds : ℕ) (c : Copied) (t : Tracking)
      → (rounds_loop left phys clear sink rounds c t).0 ≤ rounds + left
  unfolding rounds_loop
  rounds_loop-within zero clear rounds c t = omega arith
  rounds_loop-within (suc left) clear rounds c t =
      let (t1, dirty) = scan_round clear (record t { state = cleared t.state }) in
      let (c2, m2) = copy_pages phys sink (marked t1.state) (c, t1.machine) in
      let t2 = record t1 { machine = count_round dirty m2 } in
      let ih = rounds_loop-within left clear (rounds + 1) c2 t2 in
      elim (Bool-cases (dirty == 0)) [
        | inl e ↦ rw e (omega arith)
        | inr e ↦ rw e (omega (arith, ih))
      ]

  -- The throttled loop does what precopy does: whatever the rate, it makes as many rounds, copies as
  -- many pages and bytes, and ends in the same state; the rounds are at most those that are allowed,
  -- and the bytes are 4096 for each page, modulo 2 ^ 64.
  pub precopy_throttled-precopy :
      (max_rounds : ℕ) (clear : Bool) (t : Tracking)
      → ((precopy max_rounds phys clear sink t).0 ≤ max_rounds)
        × Agree
            (precopy_throttled max_rounds phys clear sink rate t)
            (precopy max_rounds phys clear sink t)
  unfolding precopy precopy_throttled
  precopy_throttled-precopy max_rounds clear t = by_state t.state
    where
      by_state :
          (st : Option TrackerState)
          → ((rounds_of st max_rounds phys clear sink t).0 ≤ max_rounds)
            × Agree
                (throttled_of st max_rounds phys clear sink rate t)
                (rounds_of st max_rounds phys clear sink t)
      by_state none = (
        omega arith,
        record { rounds = refl; pages = refl; bytes = refl; counted = omega arith; state = refl },
      )
      by_state (some st) = (
        omega (arith, rounds_loop-within max_rounds clear 0 no_copies t),
        throttled_loop-Agree max_rounds clear 0 unthrottled no_copies t refl refl (omega arith),
      )
