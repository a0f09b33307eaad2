-- ===== src/Migrate/Precopy/Delivered.antt =====
-- What `precopy` of src/migrate/mod.rs leaves of the pages of a round in the channel buffer, and
-- what it leaves alone.
use zerovisor.Base.{
  ℕ, zero, suc, subst, ◌+◌, ◌-◌, ◌*◌, ◌^◌, ◌<◌, ◌≡◌, refl, ap, ◌∙◌, Bool, true, false, ◌||◌, List,
  [], ◌∷◌, ◌++◌, Option, none, some, arith, All, Bool-cases, inl, inr, u64, ◌<<◌, ◌==◌,
  if◌then◌else◌,
}
use zerovisor.Migrate.Channel.{Buffer}
use zerovisor.Migrate.Channel.Ring.{IsValid, pushes, pushes-IsValid}
use zerovisor.Migrate.State.{Machine, buffer}
use zerovisor.Migrate.Sender.{write_channel, buffer_writer}
use zerovisor.Migrate.Sender.Writers.{Delivers, Delivers-append, count-Delivers}
use zerovisor.Migrate.Sink.{all_zero}
use zerovisor.Migrate.Export.{chunk_of, export_chunk, export_loop, export_range}
use zerovisor.Migrate.Export.Delivered.{range_bytes, export_range-Delivers}
use zerovisor.Migrate.Precopy.{Copied, hash_of, zero_skipped, hash_skipped, copy_page, copy_pages}
use zerovisor.Migrate.Precopy.Elision.{is_left_out, is_left_out-eq}

-- The two states are the same but for the channel buffer and the counters.
abbrev pub KeepsAllElse : Machine → Machine → Type 0
KeepsAllElse m m' = record m' { chan = m.chan; counts = m.counts } ≡ m

KeepsAllElse-trans : (m n o : Machine) → KeepsAllElse m n → KeepsAllElse n o → KeepsAllElse m o
KeepsAllElse-trans m n o d e =
    ap (λ (x : Machine). record x { chan = m.chan; counts = m.counts }) e ∙ d

write_channel-KeepsAllElse :
    (g : Option Buffer) (bytes : List ℕ) (m : Machine) → KeepsAllElse m (write_channel g bytes m).0
unfolding write_channel
write_channel-KeepsAllElse none bytes m = refl
write_channel-KeepsAllElse (some b) bytes m = refl

export_chunk-KeepsAllElse :
    (addr : ℕ) (bytes : List ℕ) (m : Machine) → KeepsAllElse m (export_chunk buffer addr bytes m)
unfolding export_chunk buffer_writer
export_chunk-KeepsAllElse addr bytes m = write_channel-KeepsAllElse m.chan bytes m

export_loop-KeepsAllElse :
    (fuel : ℕ) (phys : ℕ → ℕ) (addr remaining total : ℕ) (m : Machine)
    → KeepsAllElse m (export_loop fuel phys buffer addr remaining total m).0
unfolding export_loop
export_loop-KeepsAllElse zero phys addr remaining total m = refl
export_loop-KeepsAllElse (suc fuel) phys addr remaining total m =
    elim (Bool-cases (remaining == 0)) [
      | inl t ↦ rw t refl
      | inr t ↦
          (let n = chunk_of remaining in
            let m' = export_chunk buffer addr (range_bytes phys addr n) m in
            let (o, _) =
              export_loop fuel phys buffer (u64 (addr + n)) (remaining - n) (u64 (total + n)) m' in
            rw t (
              KeepsAllElse-trans m m' o (export_chunk-KeepsAllElse addr (range_bytes phys addr n) m)
                (export_loop-KeepsAllElse fuel phys (u64 (addr + n)) (remaining - n)
                  (u64 (total + n)) m')))
    ]

export_range-KeepsAllElse :
    (phys : ℕ → ℕ) (start len : ℕ) (m : Machine)
    → KeepsAllElse m (export_range phys start len buffer m).0
unfolding export_range
export_range-KeepsAllElse phys start len m = export_loop-KeepsAllElse _ phys start len 0 m

-- A copy to the channel buffer has delivered the bytes, and has kept all else.
abbrev pub Copies : Buffer → List ℕ → Machine → Machine → Type 0
Copies b bytes m m' = Delivers b bytes m m' × KeepsAllElse m m'

nothing : (b : Buffer) (m : Machine) → m.chan ≡ some b → Delivers b [] m m
unfolding pushes
nothing b m e = record { chan = e; next_seq = refl; chunk = refl; tx_log = refl; tx_widx = refl }

zero_skipped-Copies : (b : Buffer) (m : Machine) → m.chan ≡ some b → Copies b [] m (zero_skipped m)
zero_skipped-Copies b m e = (count-Delivers _ _ (count-Delivers _ _ (nothing b m e)), refl)

hash_skipped-Copies : (b : Buffer) (m : Machine) → m.chan ≡ some b → Copies b [] m (hash_skipped m)
hash_skipped-Copies b m e = (count-Delivers _ _ (count-Delivers _ _ (nothing b m e)), refl)

-- What is copied of a page.
abbrev pub page_bytes : (ℕ → ℕ) → ℕ → List ℕ
page_bytes phys pa = if is_left_out phys pa then [] else range_bytes phys pa 4096

-- The bytes of the pages, one after another, without those that are left out.
abbrev pub pages_bytes : (ℕ → ℕ) → List ℕ → List ℕ
pages_bytes phys [] = []
pages_bytes phys (idx ∷ rest) = page_bytes phys (idx * 4096) ++ pages_bytes phys rest

-- What becomes of a page, by the two tests, if its copy leads from `m` to `m'`.
abbrev outcome : Bool → Bool → Copied → Copied → (m m' : Machine) → Copied × Machine
outcome zeros hashes c copied m m' =
    if zeros then (c, zero_skipped m) else if hashes then (c, hash_skipped m) else (copied, m')

outcome-Copies :
    (zeros hashes : Bool) (b : Buffer) (c copied : Copied) (m m' : Machine) (bytes : List ℕ)
    → m.chan ≡ some b
    → Copies b bytes m m'
    → Copies b (if zeros || hashes then [] else bytes) m (outcome zeros hashes c copied m m').1
outcome-Copies true hashes b c copied m m' bytes e d = zero_skipped-Copies b m e
outcome-Copies false true b c copied m m' bytes e d = hash_skipped-Copies b m e
outcome-Copies false false b c copied m m' bytes e d = d

module _ (phys : ℕ → ℕ) (bytes : (a : ℕ) → phys a < 256) where
  copy_page-Copies :
      (idx : ℕ) (b : Buffer) (c : Copied) (m : Machine)
      → IsValid b
      → m.chan ≡ some b
      → idx < 2 ^ 51
      → Copies b (page_bytes phys (idx * 4096)) m (copy_page phys buffer idx (c, m)).1
  copy_page-Copies idx b c m v e h =
      let pa : ℕ = idx * 4096 in
      let at_pa : pa ≡ u64 (idx << 12) = omega arith in
      let (d, _) = export_range-Delivers phys pa 4096 b m v e (omega arith) in
      let k = export_range-KeepsAllElse phys pa 4096 m in
      let tested : ℕ → Copied × Machine = λ at.
        let (m', wrote) = export_range phys at 4096 buffer m in
        outcome (all_zero phys at 512 0) (hash_of phys at == 0) c
          (record { pages = u64 (c.pages + 1); bytes = u64 (c.bytes + wrote) }) m m' in
      let body : Copies b (if is_left_out phys pa then [] else range_bytes phys pa 4096) m
          (tested pa).1 =
        subst (λ (o : Bool). Copies b (if o then [] else range_bytes phys pa 4096) m (tested pa).1)
          (is_left_out-eq phys bytes pa)
          (outcome-Copies (all_zero phys pa 512 0) (hash_of phys pa == 0) b c _ m
            (export_range phys pa 4096 buffer m).0 (range_bytes phys pa 4096) e (d, k)) in
      unfold copy_page in
      subst (λ (at : ℕ). Copies b (page_bytes phys pa) m (tested at).1) at_pa body

  -- Copying pages, whose addresses have less than 64 bits, of a memory of bytes to a valid channel
  -- buffer delivers the bytes, in order, of each page but those of which all 4096 bytes are 0 or the
  -- FNV-1a hash of the 512 numbers of 64 bits is 0, and changes nothing else of the state but the
  -- counters.
  pub copy_pages-Delivers :
      (pages : List ℕ) (b : Buffer) (c : Copied) (m : Machine)
      → IsValid b
      → m.chan ≡ some b
      → All (λ idx. idx < 2 ^ 51) pages
      → Copies b (pages_bytes phys pages) m (copy_pages phys buffer pages (c, m)).1
  unfolding copy_pages
  copy_pages-Delivers [] b c m v e h = (nothing b m e, refl)
  copy_pages-Delivers (idx ∷ rest) b c m v e h =
      let (d, k) = copy_page-Copies idx b c m v e h.0 in
      let (c', m') = copy_page phys buffer idx (c, m) in
      let (ds, ks) = copy_pages-Delivers rest _ c' m' (pushes-IsValid _ v) d.chan h.1 in
      (Delivers-append d ds, KeepsAllElse-trans m m' (copy_pages phys buffer rest (c', m')).1 k ks)
