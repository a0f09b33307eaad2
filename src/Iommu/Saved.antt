-- ===== src/Iommu/Saved.antt =====
-- `cfg_save` and `cfg_load` of src/iommu/mod.rs: the assignments in a variable of the firmware. The
-- bytes that the firmware gives back are an argument; the commands to the hardware that end
-- `cfg_load` are those of `apply_and_refresh` and of the AMD driver.
pub mod Loaded
pub mod Numbers
pub mod Few
pub mod Filled
pub mod Restored
use zerovisor.Base.{
  ℕ, zero, suc, ◌+◌, min, List, [], ◌∷◌, ◌++◌, Option, none, some, length, drop, get_or, ltb, leb,
  ◌==◌, if◌then◌else◌,
}
use zerovisor.Migrate.Codec.{byte_of, two_bytes, le_u16}
use zerovisor.Iommu.State.{DevAssign, Bdf, Registry, create_domain, assign_device, list_assignments}

-- The eight bytes of an assignment.
abbrev pub entry_bytes : DevAssign → List ℕ
entry_bytes a =
    byte_of a.seg 0
    ∷ byte_of a.seg 1
    ∷ a.bus
    ∷ a.dev
    ∷ a.func
    ∷ 0
    ∷ byte_of a.domid 0
    ∷ byte_of a.domid 1
    ∷ []

-- The closure over the assignments: `n` bytes of the buffer are taken; what is given is the count
-- after them and the bytes of those for which there is room.
unfoldable pub save_entries : ℕ → ℕ → List DevAssign → ℕ × List ℕ
save_entries n count [] = (count, [])
save_entries n count (a ∷ rest) =
    let (c, bytes) = save_entries (n + 8) (min (count + 1) 0xFFFF) rest in
    let skipped = save_entries n count rest in
    if leb (n + 8) 2048 then (c, entry_bytes a ++ bytes) else skipped

-- What `set_variable` is given.
unfoldable pub cfg_save : Registry → List ℕ
unfolding save_entries
cfg_save s =
    let (count, bytes) = save_entries 2 0 (list_assignments s.assigns) in two_bytes count ++ bytes

-- `map_old_new`: the domains that stand for saved ones.
abbrev pub Renamed : Type 0
Renamed = List (ℕ × ℕ)

unfoldable pub new_id : ℕ → Renamed → Option ℕ
new_id odom [] = none
new_id odom ((o, n) ∷ rest) = if o == odom then some n else new_id odom rest

abbrev pub remember : ℕ → ℕ → Renamed → Renamed
remember odom id map = if ltb (length map) 16 then map ++ ((odom, id) ∷ []) else map

-- `create_domain` where the saved domain has no new one yet.
abbrev pub renamed : ℕ → Renamed → Registry × Option ℕ → Renamed × Registry × Option ℕ
renamed odom map (s, none) = (map, s, none)
renamed odom map (s, some id) = (remember odom id map, s, some id)

unfoldable pub domain_for : ℕ → Renamed → Registry → Option ℕ → Renamed × Registry × Option ℕ
unfolding create_domain
domain_for odom map s none = renamed odom map (create_domain s)
domain_for odom map s (some n) = (map, s, some n)

abbrev pub assign_to : Bdf → Renamed × Registry × Option ℕ → Renamed × Registry
assign_to b (map, s, none) = (map, s)
assign_to b (map, s, some n) = (map, (assign_device b n s).0)

-- The body of the loop for a device and its saved domain.
unfoldable pub reassign : Bdf → ℕ → Renamed → Registry → Renamed × Registry
unfolding new_id domain_for assign_device
reassign b odom map s = assign_to b (domain_for odom map s (new_id odom map))

-- The loop, with the bytes from `off` on as a list.
unfoldable pub load_entries : ℕ → List ℕ → ℕ → Renamed → Registry → Registry
unfolding reassign
load_entries zero bytes off map s = s
load_entries (suc count) bytes off map s =
    let e = drop off bytes in
    let b : Bdf = record {
      seg = le_u16 (get_or e 0 0 ∷ get_or e 1 0 ∷ []);
      bus = get_or e 2 0;
      dev = get_or e 3 0;
      func = get_or e 4 0;
    } in
    let odom = le_u16 (get_or e 6 0 ∷ get_or e 7 0 ∷ []) in
    let (map', s') = reassign b odom map s in
    let rest = load_entries count bytes (off + 8) map' s' in
    if ltb (length bytes) (off + 8) then s else rest

unfoldable pub cfg_load : Option (List ℕ) → Registry → Registry
unfolding load_entries
cfg_load none s = s
cfg_load (some bytes) s =
    if ltb (length bytes) 2 then s else load_entries (le_u16 bytes) bytes 2 [] s
