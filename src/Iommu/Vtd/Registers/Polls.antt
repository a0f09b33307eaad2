-- ===== src/Iommu/Vtd/Registers/Polls.antt =====
-- When the polls of src/iommu/vtd.rs succeed, and what a unit is left in.
use zerovisor.Base.{
  ℕ, zero, suc, ◌+◌, ◌<◌, ◌≡◌, ◌≢◌, refl, ap, ◌∙◌, sym, Bool, true, false, not, some, none, inl,
  inr, if◌then◌else◌, arith, bit_and, bit_or, not32, Bool-cases,
}
use zerovisor.Iommu.Vtd.Registers.{
  Hardware, poll, is_set, switch_te, bring_to, reg_gcmd, reg_gsts, gcmd_te, gsts_tes,
}

module _ (hw : Hardware) where
  open hw use {Device, read, write, stall}

  -- The device after a number of delays.
  abbrev pub after : ℕ → Device → Device
  after zero d = d
  after (suc k) d = after k (stall d)

  -- A poll that succeeds has seen the status that it waits for.
  poll-test :
      (n : ℕ) (test : ℕ → Bool) (gsts : ℕ) (d : Device)
      → (poll hw n test gsts d).0 ≡ true
      → test (read gsts (poll hw n test gsts d).1) ≡ true
  unfolding poll
  poll-test zero test gsts d h = absurd cc
  poll-test (suc n) test gsts d h = elim (Bool-cases (test (read gsts d))) [
    | inl e ↦ rw (e, e) refl
    | inr e ↦ rw e (poll-test n test gsts (stall d) (sym (rw e refl) ∙ h))
  ]

  -- A status that comes within the tries is seen.
  poll-sees :
      (n k : ℕ) (test : ℕ → Bool) (gsts : ℕ) (d : Device)
      → k < n
      → test (read gsts (after k d)) ≡ true
      → (poll hw n test gsts d).0 ≡ true
  unfolding poll
  poll-sees zero k test gsts d h e = absurd (omega arith)
  poll-sees (suc n) zero test gsts d h e = rw e refl
  poll-sees (suc n) (suc k) test gsts d h e = elim (Bool-cases (test (read gsts d))) [
    | inl t ↦ rw t refl
    | inr t ↦ rw t (poll-sees n k test gsts (stall d) (omega arith) e)
  ]

  -- A status that never comes is not.
  poll-misses :
      (n : ℕ) (test : ℕ → Bool) (gsts : ℕ) (d : Device)
      → ((k : ℕ) → k < n → test (read gsts (after k d)) ≡ false)
      → (poll hw n test gsts d).0 ≡ false
  unfolding poll
  poll-misses zero test gsts d h = refl
  poll-misses (suc n) test gsts d h =
      rw (h 0 (omega arith)) (poll-misses n test gsts (stall d) (λ k q. h (suc k) (omega arith)))

  -- The device once the command is written.
  abbrev pub commanded : (reg_base : ℕ) → Bool → Device → Device
  commanded reg_base on d =
      let cur = read (reg_base + reg_gcmd) d in
      write (reg_base + reg_gcmd) (if on then bit_or cur gcmd_te else bit_and cur (not32 gcmd_te)) d

  -- Whether translation is on.
  abbrev pub translates : (reg_base : ℕ) → Device → Bool
  translates reg_base d = is_set gsts_tes (read (reg_base + reg_gsts) d)

  abbrev pub wanted : Bool → ℕ → Bool
  wanted on s = if on then is_set gsts_tes s else not (is_set gsts_tes s)

  wanted-eq : (on : Bool) (s : ℕ) → wanted on s ≡ true → is_set gsts_tes s ≡ on
  wanted-eq true s h = h
  wanted-eq false s h = ground arith

  eq-wanted : (on : Bool) (s : ℕ) → is_set gsts_tes s ≡ on → wanted on s ≡ true
  eq-wanted true s h = h
  eq-wanted false s h = ap not h

  bring_to-eq :
      (reg_base : ℕ) (on : Bool) (d : Device)
      → bring_to hw reg_base on d ≡ (
          if wanted on (read (reg_base + reg_gsts) d)
          then (none, d)
          else (some (switch_te hw reg_base on d).0, (switch_te hw reg_base on d).1))
  unfolding bring_to
  bring_to-eq reg_base on d = refl

  module _ (reg_base k : ℕ) (on : Bool) (d : Device) (small : k < 5000)
      (answers : translates reg_base (after k (commanded reg_base on d)) ≡ on) where
    switched :
        ((switch_te hw reg_base on d).0 ≡ true)
        × (translates reg_base (switch_te hw reg_base on d).1 ≡ on)
    unfolding switch_te
    switched =
        let start = commanded reg_base on d in
        let gsts = reg_base + reg_gsts in
        let seen =
          poll-sees 5000 k (wanted on) gsts start small
            (eq-wanted on (read gsts (after k start)) answers) in
        (
          seen,
          wanted-eq on (read gsts (poll hw 5000 (wanted on) gsts start).1)
              (poll-test 5000 (wanted on) gsts start seen),
        )

    -- A unit whose translation is in the state asked for within 5000 polls of the command is in that
    -- state afterwards, and no timeout is reported.
    pub bring_to-translates :
        (translates reg_base (bring_to hw reg_base on d).1 ≡ on)
        × ((bring_to hw reg_base on d).0 ≢ some false)
    bring_to-translates = elim (Bool-cases (wanted on (read (reg_base + reg_gsts) d))) [
      | inl e ↦
          rw (bring_to-eq reg_base on d, e)
            (wanted-eq on (read (reg_base + reg_gsts) d) e, λ h. absurd cc)
      | inr e ↦
          rw (bring_to-eq reg_base on d, e) (switched.1, λ h. absurd (let t = switched.0 in cc))
    ]

  wanted-not : (on : Bool) (s : ℕ) → is_set gsts_tes s ≡ not on → wanted on s ≡ false
  wanted-not true s h = h
  wanted-not false s h = ap not h

  -- A unit that is in the other state and stays in it for 5000 polls is reported as timed out.
  pub bring_to-times_out :
      (reg_base : ℕ) (on : Bool) (d : Device)
      → translates reg_base d ≡ not on
      → ((k : ℕ) → k < 5000 → translates reg_base (after k (commanded reg_base on d)) ≡ not on)
      → (bring_to hw reg_base on d).0 ≡ some false
  unfolding switch_te
  bring_to-times_out reg_base on d now never =
      rw (bring_to-eq reg_base on d, wanted-not on (read (reg_base + reg_gsts) d) now)
        (ap some (
          poll-misses 5000 (wanted on) (reg_base + reg_gsts) (commanded reg_base on d) (λ k h.
            wanted-not on (read (reg_base + reg_gsts) (after k (commanded reg_base on d)))
              (never k h))))
