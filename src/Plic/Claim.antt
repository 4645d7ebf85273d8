-- ===== src/Plic/Claim.antt =====
-- Claiming and completing an interrupt of `Plic`, and raising one.
use risc_v_business.Base.{
  ℕ, zero, suc, ◌+◌, ◌*◌, ◌%◌, ◌^◌, ◌≤◌, ◌<◌, ◌≡◌, ◌≢◌, ◌↔◌, inl, inr, refl, ◌∙◌, Bool, true, arith,
  bit, bit-clear, bit-set, clear-set, if◌then◌else◌, ◌==◌,
}
use risc_v_business.Plic.{
  Plic, base, best_irq, claim, complete, set_pending, load, store, load_context, store_context,
}
use risc_v_business.Plic.Select.{Claimable, priority_of, best_irq-Claimable, best_irq-lt}

-- A read of a context's claim register, for either context, is a claim; a write is a completion.
pub claim_register :
    (p : Plic) (ctx width val : ℕ)
    → ctx < 2
    → let addr = base + 0x20_0004 + ctx * 0x1000 in
      (load p addr width ≡ claim p ctx) × (store p addr width val ≡ complete p (val % 2 ^ 32))
unfolding load store load_context store_context
claim_register p zero width val h = (refl, refl)
claim_register p (suc zero) width val h = (refl, refl)
claim_register p (suc (suc ctx)) width val h = absurd (omega arith)

-- A claim takes the chosen interrupt and no other away: in either context, what may be claimed
-- afterwards is what could be claimed before and is not the interrupt returned.
pub claim-Claimable :
    (p : Plic) (ctx c j : ℕ)
    → Claimable (claim p ctx).0 c j ↔ (Claimable p c j × (j ≢ (claim p ctx).1))
unfolding claim
claim-Claimable p ctx c j =
    ground (arith, best_irq-lt p ctx, bit-clear j (best_irq p ctx) p.pending)

claim_result : (p : Plic) (ctx : ℕ) → (claim p ctx).1 ≡ best_irq p ctx
unfolding claim
claim_result p ctx = refl

-- Two claims in a row in one context, with nothing raised between them: if the second returns an
-- interrupt, so did the first, another one, of at least the same priority.
pub claim_twice :
    (p : Plic) (ctx : ℕ)
    → (claim (claim p ctx).0 ctx).1 ≢ 0
    → let (p', first) = claim p ctx in
      let second = (claim p' ctx).1 in
      (first ≢ 0) × (first ≢ second) × (priority_of p second ≤ priority_of p first)
claim_twice p ctx h =
    let p' = (claim p ctx).0 in
    let b = (claim p' ctx).1 in
    elim (best_irq-Claimable p' ctx) [
      | inr (none, _) ↦ absurd (h (claim_result p' ctx ∙ none))
      | inl (_, may, _) ↦
          let e = claim_result p' ctx in
          let (was, other) = (claim-Claimable p ctx ctx (best_irq p' ctx)).0 may in
          elim (best_irq-Claimable p ctx) [
            | inr (_, nothing) ↦ absurd (nothing (best_irq p' ctx) was)
            | inl (some_irq, _, top) ↦ ground (arith, claim_result p ctx, top (best_irq p' ctx) was)
          ]
    ]

-- Raising or dropping an interrupt below 64 sets its pending bit and leaves the others; from 64 on
-- there is no pending bit to change.
pub set_pending_bits :
    (p : Plic) (irq j : ℕ) (active : Bool)
    → j < 64
    → bit j (set_pending p irq active).pending
      ≡ (if j == irq then (if active then 1 else 0) else bit j p.pending)
unfolding set_pending
set_pending_bits p irq j active h =
    ground (arith, bit-set j irq p.pending, bit-clear j irq p.pending)

-- Completing an interrupt from 1 to 63 that was raised undoes raising it: where its bit was clear
-- before in a 64-bit pending word, the controller is as it was.
pub complete-set_pending :
    (p : Plic) (irq : ℕ)
    → 1 ≤ irq
    → irq < 64
    → p.pending < 2 ^ 64
    → bit irq p.pending ≡ 0
    → complete (set_pending p irq true) irq ≡ p
unfolding set_pending complete
complete-set_pending p irq pos h small clear = ground (arith, clear-set irq p.pending h small clear)
