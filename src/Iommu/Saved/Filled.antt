-- ===== src/Iommu/Saved/Filled.antt =====
-- How `create_domain` and `assign_device` of src/iommu/state.rs fill the slots of an empty registry.
use zerovisor.Base.{
  ℕ, zero, suc, ◌+◌, ◌-◌, ◌%◌, ◌^◌, ◌≤◌, ◌<◌, ◌≡◌, refl, ap, ap₂, subst, ◌∙◌, sym, Bool, true,
  false, not, List, [], ◌∷◌, ◌++◌, some, arith, length, any, replace_first, replicate, All, ◌==◌,
  Bool-cases, inl, inr, length-append, append_assoc,
}
use zerovisor.Iommu.State.{
  Domain, DevAssign, Registry, empty, is_domain, create_domain, domain_exists, assign_device,
}

-- Tables of slots of which the first are taken.
module _ {A : Type 0} (p : A → Bool) (f : A) (is_free : p f ≡ true) where
  any-replicate : (xs : List A) (n : ℕ) → 0 < n → any p (xs ++ replicate n f) ≡ true
  any-replicate [] zero h = absurd (omega arith)
  any-replicate [] (suc n) h = rw is_free refl
  any-replicate (x ∷ xs) n h = elim (Bool-cases (p x)) [
    | inl t ↦ rw t refl
    | inr t ↦ rw t (any-replicate xs n h)
  ]

  replace_first-replicate :
      (g : A → A) (xs : List A) (n : ℕ)
      → 0 < n
      → All (λ x. p x ≡ false) xs
      → replace_first p g (xs ++ replicate n f) ≡ (xs ++ (g f ∷ [])) ++ replicate (n - 1) f
  replace_first-replicate g [] zero h a = absurd (omega arith)
  replace_first-replicate g [] (suc n) h a =
      rw is_free (ap (λ (k : ℕ). g f ∷ replicate k f) (omega arith))
  replace_first-replicate g (x ∷ xs) n h a =
      rw (a.0) (ap (λ (r : List A). x ∷ r) (replace_first-replicate g xs n h a.1))

All-snoc :
    {A : Type 0} (P : A → Type 0) (xs : List A) (y : A) → All P xs → P y → All P (xs ++ (y ∷ []))
All-snoc P [] y a b = (b, tt)
All-snoc P (x ∷ xs) y a b = (a.0, All-snoc P xs y a.1 b)

abbrev pub no_domain : Domain
no_domain = record { id = 0; used = false }

abbrev pub no_assign : DevAssign
no_assign = record { used = false; seg = 0; bus = 0; dev = 0; func = 0; domid = 0 }

-- The first `k` domains that are created.
unfoldable pub created : ℕ → List Domain
created zero = []
created (suc k) = created k ++ (record { id = suc k; used = true } ∷ [])

created-used : (k : ℕ) → All (λ d. not d.used ≡ false) (created k)
unfolding created
created-used zero = tt
created-used (suc k) =
    All-snoc (λ d. not d.used ≡ false) (created k) (record { id = suc k; used = true })
      (created-used k) refl

any-last :
    (n : ℕ) (ds rest : List Domain)
    → any (is_domain n) (ds ++ ((record { id = n; used = true } ∷ []) ++ rest)) ≡ true
any-last n [] rest = ground arith
any-last n (d ∷ ds) rest = ground (arith, any-last n ds rest)

created-exists :
    (n k : ℕ) (rest : List Domain) → 0 < n → n ≤ k → any (is_domain n) (created k ++ rest) ≡ true
unfolding created
created-exists n zero rest h le = absurd (omega arith)
created-exists n (suc k) rest h le =
    let last : Domain = record { id = suc k; used = true } in
    subst (λ (ds : List Domain). any (is_domain n) ds ≡ true)
      (sym (append_assoc (created k) (last ∷ []) rest))
      (elim (Bool-cases (n == suc k)) [
        | inl t ↦
            (let e : suc k ≡ n = ground (arith, t) in
              subst
                (λ (i : ℕ).
                  any (is_domain n) (created k ++ (record { id = i; used = true } ∷ rest)) ≡ true)
                (sym e) (any-last n (created k) rest))
        | inr t ↦ created-exists n k (last ∷ rest) h (ground (arith, t))
      ])

-- The device of an assignment, assigned to another domain.
abbrev pub moved_to : ℕ → DevAssign → DevAssign
moved_to n a = record {
  used = true;
  seg = a.seg;
  bus = a.bus;
  dev = a.dev;
  func = a.func;
  domid = n;
}

-- The registry when the domains of `seen` and the assignments of `done` have been made.
pub record Loaded (seen : List ℕ) (done : List DevAssign) (s : Registry) : Type 0 where
  pub next_id : s.next_id ≡ suc (length seen)
  pub domains : s.domains ≡ created (length seen) ++ replicate (16 - length seen) no_domain
  pub assigns : s.assigns ≡ done ++ replicate (128 - length done) no_assign
  pub all_used : All (λ a. a.used ≡ true) done

used-taken :
    (done : List DevAssign) → All (λ a. a.used ≡ true) done → All (λ a. not a.used ≡ false) done
used-taken [] h = tt
used-taken (a ∷ rest) h = (ap not h.0, used-taken rest h.1)

pub assign_device-Loaded :
    (a : DevAssign) (n : ℕ) (seen : List ℕ) (done : List DevAssign) (s : Registry)
    → Loaded seen done s
    → 0 < n
    → n ≤ length seen
    → length done < 128
    → Loaded seen
        (done ++ (moved_to n a ∷ []))
        (assign_device (record { seg = a.seg; bus = a.bus; dev = a.dev; func = a.func }) n s).0
unfolding assign_device domain_exists
assign_device-Loaded a n seen done s l h le few =
    let slots = done ++ replicate (128 - length done) no_assign in
    let exists : any (is_domain n) s.domains ≡ true =
      ap (any (is_domain n)) l.domains ∙ created-exists n (length seen) _ h le in
    let room : any (λ a. not a.used) s.assigns ≡ true =
      ap (any (λ a. not a.used)) l.assigns
      ∙ any-replicate (λ a. not a.used) no_assign refl done (128 - length done) (omega arith) in
    let put : replace_first (λ a. not a.used) (λ _. moved_to n a) s.assigns
        ≡ (done ++ (moved_to n a ∷ [])) ++ replicate (128 - length done - 1) no_assign =
      ap (replace_first (λ a. not a.used) (λ _. moved_to n a)) l.assigns
      ∙ replace_first-replicate (λ a. not a.used) no_assign refl (λ _. moved_to n a) done
          (128 - length done) (omega arith) (used-taken done l.all_used) in
    let left : 128 - length done - 1 ≡ 128 - length (done ++ (moved_to n a ∷ [])) =
      omega (arith, length-append done (moved_to n a ∷ [])) in
    rw (exists, room)
      (record {
        next_id = l.next_id;
        domains = l.domains;
        assigns = put ∙ ap (λ (k : ℕ). (done ++ (moved_to n a ∷ [])) ++ replicate k no_assign) left;
        all_used = All-snoc (λ a. a.used ≡ true) done (moved_to n a) l.all_used refl;
      })

pub create_domain-Loaded :
    (d : ℕ) (seen : List ℕ) (done : List DevAssign) (s : Registry)
    → Loaded seen done s
    → length seen < 16
    → Loaded (seen ++ (d ∷ [])) done (create_domain s).0
      × ((create_domain s).1 ≡ some (suc (length seen)))
unfolding create_domain created
create_domain-Loaded d seen done s l few =
    let k : ℕ = length seen in
    let room : any (λ d. not d.used) s.domains ≡ true =
      ap (any (λ d. not d.used)) l.domains
      ∙ any-replicate (λ d. not d.used) no_domain refl (created k) (16 - k) (omega arith) in
    let put : replace_first (λ d. not d.used) (λ d. record { id = s.next_id; used = true })
          s.domains
        ≡ (created k ++ (record { id = s.next_id; used = true } ∷ []))
          ++ replicate (16 - k - 1) no_domain =
      ap (replace_first (λ d. not d.used) (λ d. record { id = s.next_id; used = true })) l.domains
      ∙ replace_first-replicate (λ d. not d.used) no_domain refl
          (λ d. record { id = s.next_id; used = true }) (created k) (16 - k) (omega arith)
          (created-used k) in
    let longer : suc k ≡ length (seen ++ (d ∷ [])) = omega (arith, length-append seen (d ∷ [])) in
    let left : 16 - k - 1 ≡ 16 - suc k = omega arith in
    let next : (s.next_id + 1) % 2 ^ 16 ≡ suc (suc k) = omega (arith, l.next_id) in
    rw room (
      record {
        next_id = next ∙ ap suc longer;
        domains =
            put
            ∙ ap₂
                (λ (i n : ℕ).
                  (created k ++ (record { id = i; used = true } ∷ [])) ++ replicate n no_domain)
                l.next_id left
            ∙ ap (λ (n : ℕ). created n ++ replicate (16 - n) no_domain) longer;
        assigns = l.assigns;
        all_used = l.all_used;
      },
      ap some l.next_id,
    )

pub empty-Loaded : Loaded [] [] empty
unfolding created
empty-Loaded = record { next_id = refl; domains = refl; assigns = refl; all_used = tt }
