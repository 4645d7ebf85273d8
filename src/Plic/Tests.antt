-- ===== src/Plic/Tests.antt =====
-- Tests of `Plic`.
use risc_v_business.Base.{ℕ, ◌<◌, ◌≤◌, ◌≡◌, ◌≢◌, ◌⊎◌, ◌↔◌, refl, [], ◌∷◌, ◌++◌, replicate}
use risc_v_business.Plic.{Plic, best_irq, scan, consider, claim}
use risc_v_business.Plic.Select.{Claimable, priority_of, best_irq-Claimable}
use risc_v_business.Plic.Claim.{claim-Claimable}

-- Interrupts 10 and 11 have priorities 1 and 2, are enabled for S-mode and pending.
abbrev busy : Plic
busy = record {
  priority = replicate 10 0 ++ (1 ∷ 2 ∷ replicate 116 0);
  pending = 0xC00;
  enable = (0 ∷ 0 ∷ 0 ∷ 0 ∷ []) ∷ (0xC00 ∷ 0 ∷ 0 ∷ 0 ∷ []) ∷ [];
  threshold = 0 ∷ 0 ∷ [];
}

abbrev Best : Plic → ℕ → ℕ → Type 0
Best p ctx b =
    ((b ≢ 0)
      × Claimable p ctx b
      × ((j : ℕ)
          → Claimable p ctx j
          → (priority_of p j < priority_of p b) ⊎ ((priority_of p j ≡ priority_of p b) × (b ≤ j))))
    ⊎ ((b ≡ 0) × ((j : ℕ) → ¬ Claimable p ctx j))

best_irq-Claimable_example : Best busy 1 (best_irq busy 1)
best_irq-Claimable_example = best_irq-Claimable busy 1

claim-Claimable_example :
    Claimable (claim busy 1).0 1 10 ↔ (Claimable busy 1 10 × (10 ≢ (claim busy 1).1))
claim-Claimable_example = claim-Claimable busy 1 1 10

second_claim : (claim (claim busy 1).0 1).1 ≡ 10
unfolding claim best_irq scan consider
second_claim = refl
