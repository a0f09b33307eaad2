-- ===== src/Iommu/State.antt =====
-- src/iommu/state.rs: the tables of domains, assignments and mappings. Each `lock` runs its closure
-- alone, so the tables are taken and returned; the closures of the `list_` functions are replaced by the
-- lists that they are called with.
pub mod Consistent
pub mod Steps
pub mod Effects
use zerovisor.Base.{
  ℕ, zero, suc, ◌+◌, ◌%◌, ◌^◌, Bool, true, false, ◌&&◌, ◌||◌, not, List, [], ◌∷◌, Option, none,
  some, ◌==◌, if◌then◌else◌, any, replace_first, replace_all, find, replicate,
}
use zerovisor.Events.Audit.{
  Audit, quiet, log, iommu_domain_create, iommu_assign_added, iommu_assign_removed,
}

pub record Domain : Type 0 where
  pub id : ℕ
  pub used : Bool

pub record DevAssign : Type 0 where
  pub used : Bool
  pub seg : ℕ
  pub bus : ℕ
  pub dev : ℕ
  pub func : ℕ
  pub domid : ℕ

pub record Mapping : Type 0 where
  pub used : Bool
  pub domid : ℕ
  pub iova : ℕ
  pub pa : ℕ
  pub len : ℕ
  pub perm_r : Bool
  pub perm_w : Bool
  pub perm_x : Bool

-- The counters of src/obs/metrics.rs that the registry adds to.
pub data Counter : Type 0 where
  domain_created assign_added assign_removed map_added map_removed : Counter

-- A device: segment, bus, device and function.
pub record Bdf : Type 0 where
  pub seg : ℕ
  pub bus : ℕ
  pub dev : ℕ
  pub func : ℕ

pub record Registry : Type 0 where
  pub domains : List Domain
  pub assigns : List DevAssign
  pub mappings : List Mapping
  pub next_id : ℕ
  pub counts : List Counter
  pub audit : Audit

abbrev pub empty : Registry
empty = record {
  domains = replicate 16 (record { id = 0; used = false });
  assigns = replicate 128 (record { used = false; seg = 0; bus = 0; dev = 0; func = 0; domid = 0 });
  mappings = replicate 256 (record {
    used = false;
    domid = 0;
    iova = 0;
    pa = 0;
    len = 0;
    perm_r = false;
    perm_w = false;
    perm_x = false;
  });
  next_id = 1;
  counts = [];
  audit = quiet;
}

abbrev pub is_domain : ℕ → Domain → Bool
is_domain id d = d.used && d.id == id

abbrev pub is_device : Bdf → DevAssign → Bool
is_device b a = a.seg == b.seg && a.bus == b.bus && a.dev == b.dev && a.func == b.func

-- Whether a slot belongs to a domain, and the freeing of slots, which keep what else they have.
abbrev pub assigned_to : ℕ → DevAssign → Bool
assigned_to id a = a.used && a.domid == id

abbrev pub mapped_to : ℕ → Mapping → Bool
mapped_to id m = m.used && m.domid == id

abbrev pub freed : DevAssign → DevAssign
freed a = record a { used = false }

abbrev pub unmapped : Mapping → Mapping
unmapped m = record m { used = false }

-- The identifier is taken even when there is no slot for it.
unfoldable pub create_domain : Registry → Registry × Option ℕ
unfolding log
create_domain s =
    let id = s.next_id in
    let s1 = record s { next_id = (id + 1) % 2 ^ 16 } in
    let s2 = record s1 {
      domains = replace_first (λ d. not d.used) (λ d. record { id = id; used = true }) s.domains;
      counts = domain_created ∷ s.counts;
      audit = log (iommu_domain_create id) s.audit;
    } in
    if any (λ d. not d.used) s.domains then (s2, some id) else (s1, none)

unfoldable pub domain_exists : ℕ → Registry → Bool
domain_exists id s = any (is_domain id) s.domains

unfoldable pub assign_device : Bdf → ℕ → Registry → Registry × Bool
unfolding domain_exists log
assign_device b domid s =
    let slot : DevAssign = record {
      used = true;
      seg = b.seg;
      bus = b.bus;
      dev = b.dev;
      func = b.func;
      domid = domid;
    } in
    let s1 = record s {
      assigns = replace_first (λ a. not a.used) (λ _. slot) s.assigns;
      counts = assign_added ∷ s.counts;
      audit = log (iommu_assign_added b.seg b.bus b.dev b.func domid) s.audit;
    } in
    if not (domain_exists domid s)
    then (s, false)
    else if any (λ a. not a.used) s.assigns
    then (s1, true)
    else (s, false)

abbrev pub has_assignments : Registry → Bool
has_assignments s = any (λ a. a.used) s.assigns

unfoldable pub destroy_domain : ℕ → Registry → Registry × Bool
destroy_domain id s =
    let s1 = record s {
      domains = replace_first (is_domain id) (λ d. record d { used = false }) s.domains;
      assigns = replace_all (assigned_to id) freed s.assigns;
      mappings = replace_all (mapped_to id) unmapped s.mappings;
    } in
    if any (is_domain id) s.domains then (s1, true) else (s, false)

-- The domain that the audit names: of the first free slot that has the device.
abbrev pub freed_domain : Option DevAssign → ℕ
freed_domain none = 0
freed_domain (some a) = a.domid

unfoldable pub unassign_device : Bdf → Registry → Registry × Bool
unfolding log
unassign_device b s =
    let left = replace_first (λ a. a.used && is_device b a) freed s.assigns in
    let domid = freed_domain (find (λ a. not a.used && is_device b a) left) in
    let s1 = record s {
      assigns = left;
      counts = assign_removed ∷ s.counts;
      audit = log (iommu_assign_removed b.seg b.bus b.dev b.func domid) s.audit;
    } in
    if any (λ a. a.used && is_device b a) s.assigns then (s1, true) else (s, false)

unfoldable pub add_mapping : (domid iova pa len : ℕ) (r w x : Bool) → Registry → Registry × Bool
unfolding domain_exists
add_mapping domid iova pa len r w x s =
    let slot : Mapping = record {
      used = true;
      domid = domid;
      iova = iova;
      pa = pa;
      len = len;
      perm_r = r;
      perm_w = w;
      perm_x = x;
    } in
    let s1 = record s {
      mappings = replace_first (λ m. not m.used) (λ _. slot) s.mappings;
      counts = map_added ∷ s.counts;
    } in
    if not (domain_exists domid s) || len == 0
    then (s, false)
    else if any (λ m. not m.used) s.mappings
    then (s1, true)
    else (s, false)

abbrev pub is_mapping : (domid iova len : ℕ) → Mapping → Bool
is_mapping domid iova len m = m.used && m.domid == domid && m.iova == iova && m.len == len

unfoldable pub remove_mapping : (domid iova len : ℕ) → Registry → Registry × Bool
remove_mapping domid iova len s =
    let s1 = record s {
      mappings = replace_first (is_mapping domid iova len) unmapped s.mappings;
      counts = map_removed ∷ s.counts;
    } in
    if any (is_mapping domid iova len) s.mappings then (s1, true) else (s, false)

-- How many slots satisfy a test.
unfoldable pub count_if : (Mapping → Bool) → List Mapping → ℕ
count_if p [] = 0
count_if p (m ∷ ms) = if p m then suc (count_if p ms) else count_if p ms

abbrev pub map_removals : ℕ → List Counter → List Counter
map_removals zero counts = counts
map_removals (suc n) counts = map_removed ∷ map_removals n counts

-- The count of at most 256 does not saturate.
unfoldable pub remove_mappings_for_domain : ℕ → Registry → Registry × ℕ
unfolding count_if
remove_mappings_for_domain domid s =
    let n = count_if (mapped_to domid) s.mappings in
    (
      record s {
        mappings = replace_all (mapped_to domid) unmapped s.mappings;
        counts = map_removals n s.counts;
      },
      n,
    )

abbrev pub domain_of : Option DevAssign → Option ℕ
domain_of none = none
domain_of (some a) = some a.domid

unfoldable pub find_domain_for_bdf : Bdf → Registry → Option ℕ
find_domain_for_bdf b s = domain_of (find (λ a. a.used && is_device b a) s.assigns)

-- What the `list_` functions call their closures with.
unfoldable pub list_domains : List Domain → List ℕ
list_domains [] = []
list_domains (d ∷ ds) = if d.used then d.id ∷ list_domains ds else list_domains ds

unfoldable pub list_assignments : List DevAssign → List DevAssign
list_assignments [] = []
list_assignments (a ∷ rest) = if a.used then a ∷ list_assignments rest else list_assignments rest

unfoldable pub list_mappings : List Mapping → List Mapping
list_mappings [] = []
list_mappings (m ∷ ms) = if m.used then m ∷ list_mappings ms else list_mappings ms
