-- ===== src/Plic/Select.antt =====
-- What `best_irq` of `Plic` chooses: the loop invariant, and its consequences at the end.
use risc_v_business.Base.{
  ℕ, zero, suc, ◌+◌, ◌/◌, ◌%◌, ◌^◌, ◌≤◌, ◌<◌, ◌≡◌, ◌≢◌, subst, ◌⊎◌, inl, inr, refl, true, false,
  arith, get_or, bit, bit_and-one,
}
use risc_v_business.Plic.{Plic, enable_word, consider, scan, best_irq, has_interrupt}

-- Interrupt `irq` is pending and enabled in the context.
abbrev pub Raised : Plic → ℕ → ℕ → Type 0
Raised p ctx irq = (bit irq p.pending ≡ 1) × (bit (irq % 32) (enable_word p ctx (irq / 32)) ≡ 1)

abbrev pub priority_of : Plic → ℕ → ℕ
priority_of p irq = get_or p.priority irq 0

abbrev pub threshold_of : Plic → ℕ → ℕ
threshold_of p ctx = get_or p.threshold ctx 0

-- The pair is what the loop has chosen among the interrupts from 1 up to but not including `hi`:
-- nothing, or a raised one above the threshold; none has a higher priority, and none before it
-- has the same.
pub record IsChosen (p : Plic) (ctx hi : ℕ) (best : ℕ × ℕ) : Type 0 where
  pub found :
      ((best.0 ≡ 0) × (best.1 ≡ threshold_of p ctx))
      ⊎ ((1 ≤ best.0)
          × (best.0 < hi)
          × Raised p ctx best.0
          × (best.1 ≡ priority_of p best.0)
          × (threshold_of p ctx < best.1))
  pub highest : (j : ℕ) → 1 ≤ j → j < hi → Raised p ctx j → priority_of p j ≤ best.1
  pub first : (j : ℕ) → 1 ≤ j → j < best.0 → Raised p ctx j → priority_of p j < best.1

module _ (p : Plic) (ctx : ℕ) where
  consider-cases :
      (irq : ℕ) (best : ℕ × ℕ)
      → (Raised p ctx irq
          × (best.1 < priority_of p irq)
          × (consider p ctx irq best ≡ (irq, priority_of p irq)))
        ⊎ ((Raised p ctx irq → priority_of p irq ≤ best.1) × (consider p ctx irq best ≡ best))
  unfolding consider
  consider-cases irq best = ground (
    arith,
    bit_and-one (p.pending / 2 ^ irq),
    bit_and-one (enable_word p ctx (irq / 32) / 2 ^ (irq % 32)),
  )

  consider-IsChosen :
      (hi : ℕ) (best : ℕ × ℕ)
      → 1 ≤ hi
      → IsChosen p ctx hi best
      → IsChosen p ctx (suc hi) (consider p ctx hi best)
  consider-IsChosen hi best pos h = elim (consider-cases hi best) [
    | inl (raised, above, e) ↦ rw e (record {
      found = inr (pos, omega arith, raised, refl, ground (arith, h.found));
      highest = λ j p q r. ground (arith, h.highest j);
      first = λ j p q r. ground (arith, h.highest j);
    })
    | inr (low, e) ↦ rw e (record {
      found = ground (arith, h.found);
      highest = λ j p q r. ground (arith, h.highest j);
      first = h.first;
    })
  ]

  scan-IsChosen :
      (left hi : ℕ) (best : ℕ × ℕ)
      → 1 ≤ hi
      → IsChosen p ctx hi best
      → IsChosen p ctx (hi + left) (scan p ctx left hi best)
  unfolding scan
  scan-IsChosen zero hi best pos h = subst (λ n. IsChosen p ctx n best) {x = hi} (omega arith) h
  scan-IsChosen (suc left) hi best pos h =
      subst (λ n. IsChosen p ctx n (scan p ctx left (suc hi) (consider p ctx hi best)))
        {x = suc hi + left} (omega arith)
        (scan-IsChosen left (suc hi) (consider p ctx hi best) (omega arith)
          (consider-IsChosen hi best pos h))

  scan_all : IsChosen p ctx 64 (scan p ctx 63 1 (0, threshold_of p ctx))
  scan_all =
      scan-IsChosen 63 1 (0, threshold_of p ctx) (omega arith)
        (record {
          found = inl (refl, refl);
          highest = λ j p q r. absurd (omega arith);
          first = λ j p q r. absurd (omega arith);
        })

-- `irq` may be claimed: one of the interrupts 1 to 63, raised, with a priority above the threshold.
abbrev pub Claimable : Plic → ℕ → ℕ → Type 0
Claimable p ctx irq =
    (1 ≤ irq) × (irq < 64) × Raised p ctx irq × (threshold_of p ctx < priority_of p irq)

-- If `best_irq` returns an interrupt it may be claimed, no interrupt that may be claimed has a
-- higher priority, and those of the same priority have a higher number; if it returns 0, there is
-- no interrupt that may be claimed.
pub best_irq-Claimable :
    (p : Plic) (ctx : ℕ)
    → let b = best_irq p ctx in
      ((b ≢ 0)
        × Claimable p ctx b
        × ((j : ℕ)
            → Claimable p ctx j
            → (priority_of p j < priority_of p b)
              ⊎ ((priority_of p j ≡ priority_of p b) × (b ≤ j))))
      ⊎ ((b ≡ 0) × ((j : ℕ) → ¬ Claimable p ctx j))
unfolding best_irq
best_irq-Claimable p ctx =
    let c = scan_all p ctx in
    elim c.found [
      | inl (none, pri) ↦ inr (none, λ j q. ground (arith, c.highest j))
      | inr (pos, below, raised, pri, above) ↦ inl (
        omega arith,
        (pos, below, raised, omega arith),
        λ j q. ground (arith, c.highest j, c.first j),
      )
    ]

pub best_irq-lt : (p : Plic) (ctx : ℕ) → best_irq p ctx < 64
best_irq-lt p ctx = ground (arith, best_irq-Claimable p ctx)

-- The controller reports an interrupt exactly when context 1, that of S-mode, has one that may be
-- claimed: one of the two holds, with such an interrupt at hand or none to be had.
pub has_interrupt-Claimable :
    (p : Plic)
    → ((has_interrupt p ≡ true) × (j : ℕ) × Claimable p 1 j)
      ⊎ ((has_interrupt p ≡ false) × ((j : ℕ) → ¬ Claimable p 1 j))
unfolding has_interrupt
has_interrupt-Claimable p = elim (best_irq-Claimable p 1) [
  | inl (some_irq, may, _) ↦ inl (ground arith, best_irq p 1, may)
  | inr (no_irq, none) ↦ inr (ground arith, none)
]
