-- ===== src/Events/Recent.antt =====
-- A dump of an event ring shows the events in the order in which they were recorded.
use native.Mathlib.Nat.{mod-lt, mod-add-mod}
use native.Mathlib.Decide.{dec_lt}
use zerovisor.Base.{
  ℕ, suc, ◌+◌, ◌-◌, ◌%◌, ◌^◌, ◌≤◌, ◌<◌, ◌≡◌, ap, ap₂, ◌∙◌, sym, List, [], ◌∷◌, ◌++◌, arith, length,
  get_or, set, drop, tabulate, tabulate_ext, tabulate-suc, length-set, get_or-set_self,
  get_or-set_ne, append_assoc, append-nil, length-tabulate, length-append, drop-tabulate, ◌≢◌,
  last_n, last_n-append, drop-append_le, wrap_once,
}
use zerovisor.Events.{Ring, between, emit, recent}

unfoldable pub emits : {E : Type 0} → ℕ → List E → Ring E → Ring E
unfolding emit
emits cap [] r = r
emits cap (e ∷ es) r = emits cap es (emit cap e r)

module _ {E : Type 0} (cap : ℕ) (first : E) (pos : 0 < cap) where
  -- Two indices less than a round apart are at different places.
  apart : (i d : ℕ) → 0 < d → d < cap → (i + d) % cap ≢ i % cap
  apart i d h k e = omega (
    arith,
    sym (mod-add-mod i cap d),
    mod-lt i pos,
    wrap_once (i % cap + d) cap (omega (arith, mod-lt i pos)),
  )

  -- What is shown of `n` events from `start` on, once the event after them is recorded.
  shown :
      (slots : List E) (start n w : ℕ) (e : E)
      → length slots ≡ cap
      → start + n ≡ w
      → n < cap
      → between cap first (set slots (w % cap) e) start (suc n)
        ≡ between cap first slots start n ++ (e ∷ [])
  shown slots start n w e s h k =
      tabulate-suc n _
      ∙ ap₂ (λ (l : List E) (x : E). l ++ (x ∷ []))
          (tabulate_ext n _ _
            λ i p. get_or-set_ne slots (w % cap) ((start + i) % cap) e first (other i p))
          (ap (λ k. get_or (set slots (w % cap) e) (k % cap) first) h
            ∙ get_or-set_self slots (w % cap) e first (omega (arith, mod-lt w pos)))
    where
      other : (i : ℕ) → i < n → w % cap ≢ (start + i) % cap
      other i p q =
          let at : (start + i) + (n - i) ≡ w = omega arith in
          apart (start + i) (n - i) (omega arith) (omega arith) (ap (λ k. k % cap) at ∙ q)

  -- An event recorded joins what is shown at the end, and the oldest goes when there is no room.
  recent-emit :
      (e : E) (r : Ring E)
      → length r.slots ≡ cap
      → r.widx + 1 < 2 ^ 64
      → recent cap first (emit cap e r) ≡ last_n cap (recent cap first r ++ (e ∷ []))
  unfolding recent emit
  recent-emit e r s w =
      let next : (r.widx + 1) % 2 ^ 64 ≡ r.widx + 1 = omega arith in
      rw next (elim (dec_lt r.widx cap) [ yes p ↦ room p | no p ↦ full p ])
    where
      n : ℕ
      n = r.widx - (r.widx - cap)

      after : List E
      after = set r.slots (r.widx % cap) e

      size : length (between cap first r.slots (r.widx - cap) n ++ (e ∷ [])) ≡ n + 1
      size = omega (
        arith,
        length-append (between cap first r.slots (r.widx - cap) n) (e ∷ []),
        length-tabulate n (λ i. get_or r.slots ((r.widx - cap + i) % cap) first),
      )

      Goal : Type 0
      Goal =
          between cap first after (r.widx + 1 - cap) (r.widx + 1 - (r.widx + 1 - cap))
          ≡ last_n cap (between cap first r.slots (r.widx - cap) n ++ (e ∷ []))

      room : r.widx < cap → Goal
      room p =
          let start : r.widx + 1 - cap ≡ r.widx - cap = omega arith in
          let count : r.widx + 1 - (r.widx + 1 - cap) ≡ suc n = omega arith in
          ap₂ (between cap first after) start count
          ∙ shown r.slots (r.widx - cap) n r.widx e s (omega arith) (omega arith)
          ∙ ap (λ k. drop k (between cap first r.slots (r.widx - cap) n ++ (e ∷ []))) {x = 0}
              (omega (arith, size))

      full : ¬ (r.widx < cap) → Goal
      full p =
          let start : r.widx + 1 - cap ≡ r.widx - cap + 1 = omega arith in
          let count : r.widx + 1 - (r.widx + 1 - cap) ≡ suc (cap - 1) = omega arith in
          ap₂ (between cap first after) start count
          ∙ shown r.slots (r.widx - cap + 1) (cap - 1) r.widx e s (omega arith) (omega arith)
          ∙ ap (λ l. l ++ (e ∷ [])) shorter
          ∙ sym (
              drop-append_le 1 (between cap first r.slots (r.widx - cap) n) (e ∷ []) (
                omega (
                  arith,
                  length-tabulate n (λ i. get_or r.slots ((r.widx - cap + i) % cap) first),
                )))
          ∙ ap (λ k. drop k (between cap first r.slots (r.widx - cap) n ++ (e ∷ []))) {x = 1}
              (omega (arith, size))
        where
          shorter :
              between cap first r.slots (r.widx - cap + 1) (cap - 1)
              ≡ drop 1 (between cap first r.slots (r.widx - cap) n)
          shorter =
              let left : cap - 1 ≡ n - 1 = omega arith in
              sym (
                drop-tabulate 1 n (λ i. get_or r.slots ((r.widx - cap + i) % cap) first)
                  (omega arith)
                ∙ ap (λ m. tabulate m (λ i. get_or r.slots ((r.widx - cap + (1 + i)) % cap) first))
                    (sym left)
                ∙ tabulate_ext (cap - 1) _ _
                    λ i q. ap (λ k. get_or r.slots (k % cap) first) (omega arith))

  length-recent : (r : Ring E) → length (recent cap first r) ≡ r.widx - (r.widx - cap)
  unfolding recent
  length-recent r = length-tabulate (r.widx - (r.widx - cap)) _

  -- After a number of events is recorded in a ring of `cap` entries, a dump shows, in order, the
  -- last `cap` of those that it showed before followed by the new ones, as long as the write index
  -- does not overflow.
  pub recent-emits :
      (es : List E) (r : Ring E)
      → length r.slots ≡ cap
      → r.widx + length es < 2 ^ 64
      → recent cap first (emits cap es r) ≡ last_n cap (recent cap first r ++ es)
  unfolding emits emit
  recent-emits [] r s w =
      let short : length (recent cap first r) ≤ cap = rw (length-recent r) (omega arith) in
      rw (append-nil (recent cap first r))
        (ap (λ k. drop k (recent cap first r)) {x = 0} (omega arith))
  recent-emits (e ∷ es) r s w =
      recent-emits es (emit cap e r) (length-set r.slots (r.widx % cap) e ∙ s) (omega arith)
      ∙ ap (λ l. last_n cap (l ++ es)) (recent-emit e r s (omega arith))
      ∙ last_n-append cap (recent cap first r ++ (e ∷ [])) es
      ∙ ap (last_n cap) (append_assoc (recent cap first r) (e ∷ []) es)
