-- ===== src/Iommu/Saved/Loaded.antt =====
-- Loading of saved assignments in src/iommu/mod.rs: of what was saved, and of any bytes.
use zerovisor.Base.{
  ℕ, zero, suc, ◌+◌, ◌*◌, ◌^◌, ◌≤◌, ◌<◌, ◌≡◌, refl, ap, ap₂, ◌∙◌, sym, min, true, false, List, [],
  ◌∷◌, ◌++◌, Option, none, some, arith, length, drop, ltb, leb, All, Bool-cases, inl, inr,
  length-append, drop-append, append_assoc,
}
use zerovisor.Migrate.Codec.{two_bytes, le_u16}
use zerovisor.Migrate.Codec.Roundtrip.{le_u16-two_bytes}
use zerovisor.Iommu.State.{DevAssign, Bdf, Registry, create_domain, assign_device, list_assignments}
use zerovisor.Iommu.State.Consistent.{
  IsConsistent, create_domain-IsConsistent, assign_device-IsConsistent,
}
use zerovisor.Iommu.Saved.{
  Renamed, entry_bytes, save_entries, cfg_save, new_id, renamed, domain_for, assign_to, reassign,
  load_entries, cfg_load,
}

-- The loop on assignments that need not be decoded.
unfoldable pub reassign_all : List DevAssign → Renamed → Registry → Registry
unfolding reassign
reassign_all [] map s = s
reassign_all (a ∷ rest) map s =
    let b : Bdf = record { seg = a.seg; bus = a.bus; dev = a.dev; func = a.func } in
    let (map', s') = reassign b a.domid map s in reassign_all rest map' s'

pub record Fits (a : DevAssign) : Type 0 where
  pub seg_fits : a.seg < 2 ^ 16
  pub domid_fits : a.domid < 2 ^ 16

unfoldable all_bytes : List DevAssign → List ℕ
all_bytes [] = []
all_bytes (a ∷ rest) = entry_bytes a ++ all_bytes rest

save_entries-all_bytes :
    (items : List DevAssign) (n count : ℕ)
    → n + 8 * length items ≤ 2048
    → count + length items < 2 ^ 16
    → save_entries n count items ≡ (count + length items, all_bytes items)
unfolding save_entries all_bytes
save_entries-all_bytes [] n count h k =
    let e : count ≡ count + 0 = omega arith in ap (λ c. (c, [])) e
save_entries-all_bytes (a ∷ rest) n count h k =
    let room : leb (n + 8) 2048 ≡ true = ground arith in
    let next : min (count + 1) 0xFFFF ≡ count + 1 = omega arith in
    let total : count + 1 + length rest ≡ count + suc (length rest) = omega arith in
    let later = save_entries-all_bytes rest (n + 8) (count + 1) (omega arith) (omega arith) in
    rw (room, next, later, total) refl

load_entries-all_bytes :
    (items : List DevAssign) (before : List ℕ) (map : Renamed) (s : Registry)
    → All Fits items
    → load_entries (length items) (before ++ all_bytes items) (length before) map s
      ≡ reassign_all items map s
unfolding load_entries all_bytes reassign_all
load_entries-all_bytes [] before map s f = refl
load_entries-all_bytes (a ∷ rest) before map s f =
    let here : drop (length before) (before ++ (entry_bytes a ++ all_bytes rest))
        ≡ entry_bytes a ++ all_bytes rest =
      drop-append (length before) before _ refl in
    let inside : ltb (length (before ++ (entry_bytes a ++ all_bytes rest))) (length before + 8)
        ≡ false =
      ground (arith, length-append before (entry_bytes a ++ all_bytes rest)) in
    let seg = le_u16-two_bytes a.seg f.0.seg_fits in
    let dom = le_u16-two_bytes a.domid f.0.domid_fits in
    let next : (map' : Renamed) (s' : Registry)
        → load_entries (length rest) (before ++ (entry_bytes a ++ all_bytes rest))
            (length before + 8) map' s'
          ≡ reassign_all rest map' s' =
      λ map' s'.
        ap₂ (λ (bytes : List ℕ) (off : ℕ). load_entries (length rest) bytes off map' s')
          (sym (append_assoc before (entry_bytes a) (all_bytes rest)))
          (sym (length-append before (entry_bytes a)))
        ∙ load_entries-all_bytes rest (before ++ entry_bytes a) map' s' f.1 in
    rw (inside, here, seg, dom) (next _ _)

pub length-list_assignments :
    (slots : List DevAssign) → length (list_assignments slots) ≤ length slots
unfolding list_assignments
length-list_assignments [] = omega arith
length-list_assignments (a ∷ rest) = ground (arith, length-list_assignments rest)

counted :
    (items : List DevAssign) (rest : List ℕ)
    → length items < 2 ^ 16
    → le_u16 (two_bytes (length items) ++ rest) ≡ length items
unfolding le_u16
counted items rest h = le_u16-two_bytes (length items) h

-- Nothing is lost on the way through the bytes: loading what cfg_save wrote is the loop over the
-- saved assignments.
pub cfg_load-reassign_all :
    (saved s : Registry)
    → IsConsistent saved
    → All Fits (list_assignments saved.assigns)
    → cfg_load (some (cfg_save saved)) s ≡ reassign_all (list_assignments saved.assigns) [] s
unfolding cfg_load cfg_save
cfg_load-reassign_all saved s c f =
    let items = list_assignments saved.assigns in
    let few : length items ≤ 128 =
      omega (arith, length-list_assignments saved.assigns, c.assign_slots) in
    let bytes : save_entries 2 0 items ≡ (length items, all_bytes items) =
      save_entries-all_bytes items 2 0 (omega arith) (omega arith)
      ∙ ap (λ (n : ℕ). (n, all_bytes items)) {x = 0 + length items} (omega arith) in
    let count : le_u16 (two_bytes (length items) ++ all_bytes items) ≡ length items =
      counted items (all_bytes items) (omega arith) in
    let enough : ltb (suc (suc (length (all_bytes items)))) 2 ≡ false = ground arith in
    rw (bytes, count, enough) (load_entries-all_bytes items (two_bytes (length items)) [] s f)

next_id-reassign :
    (b : Bdf) (odom : ℕ) (map : Renamed) (s : Registry)
    → (reassign b odom map s).1.next_id ≤ s.next_id + 1
unfolding reassign domain_for assign_device create_domain
next_id-reassign b odom map s = ground arith

reassign-IsConsistent :
    (b : Bdf) (odom : ℕ) (map : Renamed) (s : Registry)
    → IsConsistent s
    → s.next_id + 1 < 2 ^ 16
    → IsConsistent (reassign b odom map s).1
unfolding reassign domain_for
reassign-IsConsistent b odom map s c h = known (new_id odom map)
  where
    created :
        (r : Registry × Option ℕ)
        → IsConsistent r.0
        → IsConsistent (assign_to b (renamed odom map r)).1
    created (s1, none) c1 = c1
    created (s1, some id) c1 = assign_device-IsConsistent b id s1 c1

    known : (o : Option ℕ) → IsConsistent (assign_to b (domain_for odom map s o)).1
    known none = created (create_domain s) (create_domain-IsConsistent s c h)
    known (some n) = assign_device-IsConsistent b n s c

load_entries-IsConsistent :
    (count : ℕ) (bytes : List ℕ) (off : ℕ) (map : Renamed) (s : Registry)
    → IsConsistent s
    → s.next_id + count < 2 ^ 16
    → IsConsistent (load_entries count bytes off map s)
unfolding load_entries
load_entries-IsConsistent zero bytes off map s c h = c
load_entries-IsConsistent (suc count) bytes off map s c h =
    elim (Bool-cases (ltb (length bytes) (off + 8))) [
      | inl t ↦ rw t c
      | inr t ↦ rw t (
          load_entries-IsConsistent count bytes (off + 8) _ _
            (reassign-IsConsistent _ _ map s c (omega arith))
            (omega (arith, next_id-reassign _ _ map s)))
    ]

-- Whatever bytes the firmware gives back, loading them keeps a consistent registry consistent, as
-- long as there is an identifier left for each assignment that they announce.
pub cfg_load-IsConsistent :
    (bytes : List ℕ) (s : Registry)
    → IsConsistent s
    → s.next_id + le_u16 bytes < 2 ^ 16
    → IsConsistent (cfg_load (some bytes) s)
unfolding cfg_load
cfg_load-IsConsistent bytes s c h = elim (Bool-cases (ltb (length bytes) 2)) [
  | inl t ↦ rw t c
  | inr t ↦ rw t (load_entries-IsConsistent (le_u16 bytes) bytes 2 [] s c h)
]
