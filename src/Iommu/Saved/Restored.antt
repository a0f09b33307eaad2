-- ===== src/Iommu/Saved/Restored.antt =====
-- The registry after `cfg_load` of src/iommu/mod.rs at the start of the firmware, when it is empty.
use zerovisor.Base.{
  ℕ, zero, suc, ◌+◌, ◌≤◌, ◌<◌, ◌≡◌, refl, ap, subst, ◌∙◌, sym, Bool, true, false, List, [], ◌∷◌,
  ◌++◌, map, Option, none, some, arith, length, replicate, All, ltb, if◌then◌else◌, Bool-cases, inl,
  inr, length-append, append_assoc, append-nil,
}
use zerovisor.Iommu.State.{
  DevAssign, Bdf, Registry, empty, create_domain, assign_device, list_assignments,
}
use zerovisor.Iommu.State.Consistent.{IsConsistent}
use zerovisor.Iommu.Saved.{
  Renamed, cfg_save, cfg_load, new_id, remember, renamed, domain_for, assign_to, reassign,
}
use zerovisor.Iommu.Saved.Loaded.{
  reassign_all, Fits, length-list_assignments, cfg_load-reassign_all,
}
use zerovisor.Iommu.Saved.Numbers.{
  is_among, place, with_new, firsts, is_among-with_new, place-firsts, place-bounds, length-firsts,
  numbered, length-numbered, numbered-snoc, new_id-numbered, place-new, with_new-known,
  with_new-new,
}
use zerovisor.Iommu.Saved.Filled.{
  Loaded, no_assign, moved_to, assign_device-Loaded, create_domain-Loaded, empty-Loaded,
}
use zerovisor.Iommu.Saved.Few.{domids, length-firsts-Exist, list_assignments-Exist}

-- A round of the loop over the saved assignments.
abbrev Round : DevAssign → List ℕ → List DevAssign → Renamed × Registry → Type 0
Round a seen done r =
    (r.0 ≡ numbered 1 seen) × Loaded seen (done ++ (moved_to (place 1 a.domid seen) a ∷ [])) r.1

-- The saved domain has a new one.
reassign-known :
    (a : DevAssign) (seen : List ℕ) (done : List DevAssign) (s : Registry)
    → Loaded seen done s
    → is_among a.domid seen ≡ true
    → length done < 128
    → Round a seen done (
        reassign
          (record { seg = a.seg; bus = a.bus; dev = a.dev; func = a.func })
          a.domid
          (numbered 1 seen)
          s)
unfolding reassign domain_for
reassign-known a seen done s l t few =
    let known = new_id-numbered 1 a.domid seen in
    let bounds = place-bounds 1 a.domid seen t in
    rw (known, t)
      (
        refl,
        assign_device-Loaded a (place 1 a.domid seen) seen done s l (omega (arith, bounds.0))
            (omega (arith, bounds.1)) few,
      )

reassign-new :
    (b : Bdf) (odom id : ℕ) (map : Renamed) (s : Registry)
    → new_id odom map ≡ none
    → (create_domain s).1 ≡ some id
    → reassign b odom map s ≡ (remember odom id map, (assign_device b id (create_domain s).0).0)
unfolding reassign domain_for
reassign-new b odom id map s e k =
    ap (λ (o : Option ℕ). assign_to b (domain_for odom map s o)) e
    ∙ ap (λ (o : Option ℕ). assign_to b (renamed odom map ((create_domain s).0, o))) k

-- It has none yet.
reassign-created :
    (a : DevAssign) (seen : List ℕ) (done : List DevAssign) (s : Registry)
    → Loaded seen done s
    → is_among a.domid seen ≡ false
    → length seen < 16
    → length done < 128
    → Round a (seen ++ (a.domid ∷ [])) done (
        reassign
          (record { seg = a.seg; bus = a.bus; dev = a.dev; func = a.func })
          a.domid
          (numbered 1 seen)
          s)
reassign-created a seen done s l t fit few =
    let d : ℕ = a.domid in
    let seen' = seen ++ (d ∷ []) in
    let known = new_id-numbered 1 d seen in
    let (l1, id) = create_domain-Loaded d seen done s l fit in
    let longer : length seen' ≡ suc (length seen) = omega (arith, length-append seen (d ∷ [])) in
    let room : ltb (length (numbered 1 seen)) 16 ≡ true = ground (arith, length-numbered 1 seen) in
    let at_end : place 1 d seen' ≡ suc (length seen) = place-new 1 d seen t ∙ omega arith in
    let last : 1 + length seen ≡ suc (length seen) = omega arith in
    let remembered : remember d (suc (length seen)) (numbered 1 seen) ≡ numbered 1 seen' =
      rw room
        (sym (numbered-snoc 1 d seen ∙ ap (λ (n : ℕ). numbered 1 seen ++ ((d, n) ∷ [])) last)) in
    let assigned =
      assign_device-Loaded a (suc (length seen)) seen' done (create_domain s).0 l1 (omega arith)
        (omega (arith, longer)) few in
    subst (Round a seen' done)
      (sym (
        reassign-new _ d (suc (length seen)) (numbered 1 seen) s
          (known ∙ ap (λ (t : Bool). if t then some (place 1 d seen) else none) t) id))
      (
        remembered,
        subst
            (λ (n : ℕ).
              Loaded seen' (done ++ (moved_to n a ∷ []))
                (assign_device (record { seg = a.seg; bus = a.bus; dev = a.dev; func = a.func })
                  (suc (length seen)) (create_domain s).0).0)
            (sym at_end) assigned,
      )

reassign-Round :
    (a : DevAssign) (seen : List ℕ) (done : List DevAssign) (s : Registry)
    → Loaded seen done s
    → length (with_new a.domid seen) ≤ 16
    → length done < 128
    → Round a (with_new a.domid seen) done (
        reassign
          (record { seg = a.seg; bus = a.bus; dev = a.dev; func = a.func })
          a.domid
          (numbered 1 seen)
          s)
reassign-Round a seen done s l fit few = elim (Bool-cases (is_among a.domid seen)) [
  | inl t ↦ rw (with_new-known a.domid seen t) (reassign-known a seen done s l t few)
  | inr t ↦
      (let e = with_new-new a.domid seen t in
        let short : length seen < 16 =
          omega (arith, fit, ap length e, length-append seen (a.domid ∷ [])) in
        rw e (reassign-created a seen done s l t short few))
]

-- The saved assignments, with the domains numbered by an order.
abbrev pub renumbered : (order : List ℕ) → List DevAssign → List DevAssign
renumbered order [] = []
renumbered order (a ∷ rest) = moved_to (place 1 a.domid order) a ∷ renumbered order rest

reassign_all-renumbered :
    (items : List DevAssign) (seen : List ℕ) (done : List DevAssign) (s : Registry)
    → Loaded seen done s
    → length (firsts seen (domids items)) ≤ 16
    → length done + length items ≤ 128
    → Loaded
        (firsts seen (domids items))
        (done ++ renumbered (firsts seen (domids items)) items)
        (reassign_all items (numbered 1 seen) s)
unfolding reassign_all firsts
reassign_all-renumbered [] seen done s l fit few =
    subst (λ (xs : List DevAssign). Loaded seen xs s) (sym (append-nil done)) l
reassign_all-renumbered (a ∷ rest) seen done s l fit few =
    let seen' = with_new a.domid seen in
    let order = firsts seen' (domids rest) in
    let b : Bdf = record { seg = a.seg; bus = a.bus; dev = a.dev; func = a.func } in
    let (map', s') = reassign b a.domid (numbered 1 seen) s in
    let here : DevAssign = moved_to (place 1 a.domid seen') a in
    let (m, l') =
      reassign-Round a seen done s l (omega (arith, fit, length-firsts seen' (domids rest)))
        (omega arith) in
    let ih =
      reassign_all-renumbered rest seen' (done ++ (here ∷ [])) s' l' fit
        (omega (arith, length-append done (here ∷ []))) in
    let stays : place 1 a.domid seen' ≡ place 1 a.domid order =
      sym (place-firsts 1 a.domid seen' (domids rest) (is_among-with_new a.domid seen)) in
    subst
      (λ (r : Renamed).
        Loaded order (done ++ (moved_to (place 1 a.domid order) a ∷ renumbered order rest))
          (reassign_all rest r s'))
      (sym m)
      (subst (λ (xs : List DevAssign). Loaded order xs (reassign_all rest (numbered 1 seen') s'))
        (append_assoc done (here ∷ []) (renumbered order rest)
          ∙ ap (λ (n : ℕ). done ++ (moved_to n a ∷ renumbered order rest)) stays)
        ih)

list_assignments-replicate :
    (xs : List DevAssign) (n : ℕ)
    → All (λ a. a.used ≡ true) xs
    → list_assignments (xs ++ replicate n no_assign) ≡ xs
unfolding list_assignments
list_assignments-replicate [] zero h = refl
list_assignments-replicate [] (suc n) h = list_assignments-replicate [] n tt
list_assignments-replicate (a ∷ rest) n h =
    let later = list_assignments (rest ++ replicate n no_assign) in
    ap (λ (t : Bool). if t then a ∷ later else later) (h.0)
    ∙ ap (λ (r : List DevAssign). a ∷ r) (list_assignments-replicate rest n h.1)

-- Loading at the start, into the empty registry, what cfg_save wrote of a consistent registry whose
-- segments and domains have 16 bits gives the same devices in the same order, each in the domain
-- whose identifier is the place, from 1 on, of its saved domain in the order in which the saved
-- domains first appear. So devices share a domain if and only if they did.
pub cfg_load-renumbered :
    (saved : Registry)
    → IsConsistent saved
    → All Fits (list_assignments saved.assigns)
    → let items = list_assignments saved.assigns in
      list_assignments (cfg_load (some (cfg_save saved)) empty).assigns
      ≡ renumbered (firsts [] (domids items)) items
cfg_load-renumbered saved c f =
    let items = list_assignments saved.assigns in
    let fit : length (firsts [] (domids items)) ≤ 16 = omega (
      arith,
      length-firsts-Exist (domids items) saved.domains
          (list_assignments-Exist saved.domains saved.assigns c.assigned),
      c.domain_slots,
    ) in
    let few : length items ≤ 128 =
      omega (arith, length-list_assignments saved.assigns, c.assign_slots) in
    let none_seen : [] ≡ numbered 1 [] = unfold numbered in refl in
    let l = reassign_all-renumbered items [] [] empty empty-Loaded fit (omega (arith, few)) in
    ap (λ (r : Registry). list_assignments r.assigns)
      (cfg_load-reassign_all saved empty c f
        ∙ ap (λ (m : Renamed). reassign_all items m empty) none_seen)
    ∙ ap list_assignments l.assigns
    ∙ list_assignments-replicate _ _ l.all_used
