-- ===== src/Migrate/Export/Delivered.antt =====
-- What `export_range` of src/migrate/mod.rs returns, and what it leaves in the channel buffer.
use zerovisor.Base.{
  ◌⊎◌, ℕ, zero, suc, ◌+◌, ◌-◌, ◌*◌, ◌/◌, ◌%◌, ◌^◌, ◌≤◌, ◌<◌, ◌≡◌, refl, ap, ◌∙◌, sym, List, ◌++◌,
  some, arith, tabulate, tabulate_ext, tabulate-add, ltb, ◌==◌, Bool-cases, inl, inr, u64,
}
use zerovisor.Migrate.Channel.{Buffer}
use zerovisor.Migrate.Channel.Ring.{IsValid, pushes, pushes-IsValid}
use zerovisor.Migrate.State.{Machine, ExportSink, buffer}
use zerovisor.Migrate.Sender.Writers.{
  Delivers, Delivers-append, written_to, written_to-Delivers, buffer_writer-eq,
}
use zerovisor.Migrate.Export.{export_chunk, export_loop, export_range, chunk_of}

chunk_of-bounds : (n : ℕ) → 0 < n → (0 < chunk_of n) × (chunk_of n ≤ 16) × (chunk_of n ≤ n)
chunk_of-bounds n h = (ground arith, ground arith, ground arith)

-- A round takes 16 bytes unless it is the last.
chunk_of-left : (n : ℕ) → (n - chunk_of n ≡ 0) ⊎ (chunk_of n ≡ 16)
chunk_of-left n = elim (Bool-cases (ltb 16 n)) [
  | inl t ↦ inr (rw t refl)
  | inr t ↦ inl (rw t (omega arith))
]

-- The bytes of a range.
abbrev pub range_bytes : (ℕ → ℕ) → (start len : ℕ) → List ℕ
range_bytes phys start len = tabulate len (λ i. phys (start + i))

range_bytes-split :
    (phys : ℕ → ℕ) (start n m : ℕ)
    → n ≤ m
    → range_bytes phys start n ++ range_bytes phys (start + n) (m - n) ≡ range_bytes phys start m
range_bytes-split phys start n m h =
    ap (λ l. range_bytes phys start n ++ l)
      (tabulate_ext (m - n) (λ i. phys (start + n + i)) (λ i. phys (start + (n + i)))
        (λ i p. ap phys (omega arith)))
    ∙ sym (tabulate-add n (m - n) (λ i. phys (start + i)))
    ∙ ap (λ k. range_bytes phys start k) (omega arith)

export_loop-total :
    (fuel : ℕ) (phys : ℕ → ℕ) (sink : ExportSink) (addr remaining total : ℕ) (m : Machine)
    → remaining ≤ fuel * 16
    → total + remaining < 2 ^ 64
    → (export_loop fuel phys sink addr remaining total m).1 ≡ total + remaining
unfolding export_loop
export_loop-total zero phys sink addr remaining total m f h = omega arith
export_loop-total (suc fuel) phys sink addr remaining total m f h =
    elim (Bool-cases (remaining == 0)) [
      | inl t ↦ rw t (ground (arith, t))
      | inr t ↦
          (let c = chunk_of-bounds remaining (ground (arith, t)) in
            let left = chunk_of-left remaining in
            let next : (total + chunk_of remaining) % 2 ^ 64 ≡ total + chunk_of remaining =
              omega arith in
            let ih =
              export_loop-total fuel phys sink (u64 (addr + chunk_of remaining))
                (remaining - chunk_of remaining) (total + chunk_of remaining)
                (export_chunk sink addr (tabulate (chunk_of remaining) (λ i. phys (addr + i))) m)
                (omega (arith, left)) (omega arith) in
            rw (t, next) (ih ∙ omega arith))
    ]

-- To any sink, export_range reports the length of the range.
pub export_range-total :
    (phys : ℕ → ℕ) (start len : ℕ) (sink : ExportSink) (m : Machine)
    → len < 2 ^ 64
    → (export_range phys start len sink m).1 ≡ len
unfolding export_range
export_range-total phys start len sink m h =
    export_loop-total (len / 16 + 1) phys sink start len 0 m (omega arith) (omega arith)
    ∙ omega arith

export_chunk-eq :
    (addr : ℕ) (bytes : List ℕ) (b : Buffer) (m : Machine)
    → IsValid b
    → m.chan ≡ some b
    → export_chunk buffer addr bytes m ≡ written_to b bytes m
unfolding export_chunk
export_chunk-eq addr bytes b m v e = ap (λ (r : Machine × ℕ). r.0) (buffer_writer-eq b bytes m v e)

module _ (phys : ℕ → ℕ) where
  nothing :
      (addr remaining : ℕ) (b : Buffer) (m : Machine)
      → m.chan ≡ some b
      → remaining ≡ 0
      → Delivers b (range_bytes phys addr remaining) m m
  unfolding pushes
  nothing addr remaining b m e none_left =
      rw none_left
        (record { chan = e; next_seq = refl; chunk = refl; tx_log = refl; tx_widx = refl })

  export_loop-Delivers :
      (fuel addr remaining total : ℕ) (b : Buffer) (m : Machine)
      → IsValid b
      → m.chan ≡ some b
      → remaining ≤ fuel * 16
      → addr + remaining < 2 ^ 64
      → Delivers b
          (range_bytes phys addr remaining)
          m
          (export_loop fuel phys buffer addr remaining total m).0
  unfolding export_loop
  export_loop-Delivers zero addr remaining total b m v e f h =
      nothing addr remaining b m e (omega arith)
  export_loop-Delivers (suc fuel) addr remaining total b m v e f h =
      elim (Bool-cases (remaining == 0)) [
        | inl t ↦ rw t (nothing addr remaining b m e (ground (arith, t)))
        | inr t ↦
            (let n = chunk_of remaining in
              let c = chunk_of-bounds remaining (ground (arith, t)) in
              let left = chunk_of-left remaining in
              let bytes = range_bytes phys addr n in
              let next : (addr + n) % 2 ^ 64 ≡ addr + n = omega arith in
              let ih =
                export_loop-Delivers fuel (addr + n) (remaining - n) (u64 (total + n))
                  (pushes b bytes) (written_to b bytes m) (pushes-IsValid bytes v) refl
                  (omega (arith, left)) (omega arith) in
              rw (t, export_chunk-eq addr bytes b m v e, next)
                (rw (range_bytes-split phys addr n remaining c.2) at
                  (Delivers-append (written_to-Delivers b bytes m) ih)))
      ]

-- To the channel buffer, export_range delivers the bytes of the range, in order, and changes nothing
-- else but a counter; it reports the length. The range must not go past the end of the addresses.
pub export_range-Delivers :
    (phys : ℕ → ℕ) (start len : ℕ) (b : Buffer) (m : Machine)
    → IsValid b
    → m.chan ≡ some b
    → start + len < 2 ^ 64
    → let (m', reported) = export_range phys start len buffer m in
      Delivers b (range_bytes phys start len) m m' × (reported ≡ len)
unfolding export_range
export_range-Delivers phys start len b m v e h = (
  export_loop-Delivers phys (len / 16 + 1) start len 0 b m v e (omega arith) h,
  export_range-total phys start len buffer m (omega arith),
)
