-- ===== src/Jit/Jumps.antt =====
-- Branches and jumps of src/jit.rs, which end a block, against the interpreter, src/cpu/execute.rs.
use risc_v_business.Base.{
  ℕ, ◌-◌, ◌/◌, ◌^◌, ◌≡◌, refl, sym, ap, subst, ◌∙◌, Bool, Bool-cases, inl, inr, true, false, not,
  ltb, leb, ◌==◌, if◌then◌else◌, List, ◌∷◌, ◌++◌, arith, u32, bit_and, bit_and-one, bit_and-not_one,
  not64, wrapping_add, Exit, ok, none,
}
use risc_v_business.VirtioBlk.{Disk}
use risc_v_business.Decode.{Instruction, beq, bne, blt, bge, bltu, bgeu, jal, jalr}
use risc_v_business.Cpu.{Cpu, reg, set_reg}
use risc_v_business.Execute.Alu.{sext}
use risc_v_business.Execute.Full.{execute, branch, jump, is_odd}
use risc_v_business.Execute.Float.{Floats}
use risc_v_business.Jit.Asm.{Op, Condition, Value, Scratch, holds, compared}
use risc_v_business.Jit.Asm.Run.{run, step}
use risc_v_business.Jit.Emit.{off, emit_branch, emit_return, emit_jalr, emit_constant}
use risc_v_business.Jit.Arms.{emit, emit_words, emit_divisions, emit_memory, emit_jumps}
use risc_v_business.Jit.Equivalence.{ZeroKept, inside, slot-reg}
use risc_v_business.Jit.Straight.{at, unmoved, unmoved-set_reg}

module _ {F : Type 0} (D : Disk F) (rounds clobbered : ℕ) where
  -- Code that returns to the caller of the block with an address in rax, and its registers and stack
  -- as they were at the call.
  abbrev pub Leaves : List Op → Cpu F → Cpu F → ℕ → Type 0
  Leaves code c d next =
      (w : Scratch) (x v14 v15 : Value) (st : List Value)
      → (w' : Scratch) × ((w'.rax ≡ next)
          × ((rest : List Op)
              → run D rounds clobbered (code ++ rest) (inside c w (x ∷ v14 ∷ v15 ∷ st))
                ≡ (record { cpu = d; scratch = w'; r14 = v14; r15 = v15; stack = st }, ok tt)))

  pub return-Leaves : (c : Cpu F) (next : ℕ) → Leaves (emit_return next) c c next
  unfolding emit_return run step
  return-Leaves c next w x v14 v15 st =
      (record w { rax = next; flags = none }, (refl, λ rest. refl))

  module _ (c : Cpu F) (zero_kept : ZeroKept c) where
    pub branch-Leaves :
        (cond : Condition) (rs1 rs2 taken_pc fall_pc : ℕ)
        → Leaves
            (emit_branch cond rs1 rs2 taken_pc fall_pc)
            c
            c
            (if holds cond (compared (reg c rs1) (reg c rs2)) then taken_pc else fall_pc)
    unfolding emit_branch emit_return run step
    branch-Leaves cond rs1 rs2 taken_pc fall_pc w x v14 v15 st =
        let e = slot-reg c rs1 zero_kept in
        let f = slot-reg c rs2 zero_kept in
        elim (Bool-cases (holds cond (compared (reg c rs1) (reg c rs2)))) [
          | inl t ↦
              (record w { rax = taken_pc; flags = none }, (rw t refl, λ rest. rw (e, f, t) refl))
          | inr t ↦
              (record w { rax = fall_pc; flags = none }, (rw t refl, λ rest. rw (e, f, t) refl))
        ]

    -- The link, and the address with its lowest bit cleared.
    pub jalr-Leaves :
        (rd rs1 i link : ℕ)
        → sext (u32 i) 31 ≡ i
        → Leaves
            (emit_jalr rd rs1 i link)
            c
            (set_reg c rd link)
            (bit_and (wrapping_add (reg c rs1) i) (not64 1))
    unfolding emit_jalr set_reg run step
    jalr-Leaves rd rs1 i link h w x v14 v15 st =
        let e = slot-reg c rs1 zero_kept in
        let mask : sext (2 ^ 32 - 2) 31 ≡ not64 1 = unfold sext in refl in
        let o : off rd / 8 ≡ rd = omega arith in
        let target = bit_and (wrapping_add (reg c rs1) i) (not64 1) in
        elim (Bool-cases (rd == 0)) [
          | inl t ↦ (
            record w { rax = target; rcx = target; flags = none },
            (refl, λ rest. rw (t, e, h, mask) refl),
          )
          | inr t ↦ (
            record w { rax = target; rcx = target; flags = none },
            (refl, λ rest. rw (t, e, h, mask, o) refl),
          )
        ]

module _ {F : Type 0} (c : Cpu F) (guest_pc : ℕ) where
  branches :
      (t : Bool) (i : ℕ)
      → is_odd (wrapping_add guest_pc i) ≡ false
      → branch t i (at c guest_pc)
        ≡ (at c (if t then wrapping_add guest_pc i else wrapping_add guest_pc 4), ok tt)
  unfolding branch
  branches true i h = rw h refl
  branches false i h = refl

  jumps :
      (rd target : ℕ)
      → is_odd target ≡ false
      → jump rd target (at c guest_pc) ≡ (at (set_reg c rd (wrapping_add guest_pc 4)) target, ok tt)
  unfolding jump set_reg
  jumps rd target h = elim (Bool-cases (rd == 0)) [
    | inl t ↦ rw (h, t) refl
    | inr t ↦ rw (h, t) refl
  ]

-- The jumps and branches whose targets are even, and whose offsets have their widths.
pub data Jump (guest_pc : ℕ) : Instruction → Type 0 where
  is_beq :
      (rs1 rs2 i : ℕ) → is_odd (wrapping_add guest_pc i) ≡ false → Jump guest_pc (beq rs1 rs2 i)
  is_bne :
      (rs1 rs2 i : ℕ) → is_odd (wrapping_add guest_pc i) ≡ false → Jump guest_pc (bne rs1 rs2 i)
  is_blt :
      (rs1 rs2 i : ℕ) → is_odd (wrapping_add guest_pc i) ≡ false → Jump guest_pc (blt rs1 rs2 i)
  is_bge :
      (rs1 rs2 i : ℕ) → is_odd (wrapping_add guest_pc i) ≡ false → Jump guest_pc (bge rs1 rs2 i)
  is_bltu :
      (rs1 rs2 i : ℕ) → is_odd (wrapping_add guest_pc i) ≡ false → Jump guest_pc (bltu rs1 rs2 i)
  is_bgeu :
      (rs1 rs2 i : ℕ) → is_odd (wrapping_add guest_pc i) ≡ false → Jump guest_pc (bgeu rs1 rs2 i)
  is_jal : (rd i : ℕ) → is_odd (wrapping_add guest_pc i) ≡ false → Jump guest_pc (jal rd i)
  is_jalr : (rd rs1 i : ℕ) → sext (u32 i) 31 ≡ i → Jump guest_pc (jalr rd rs1 i)

not-ltb : (a b : ℕ) → leb b a ≡ not (ltb a b)
not-ltb a b = ground arith

cleared-is_odd : (x : ℕ) → is_odd (bit_and x (not64 1)) ≡ false
cleared-is_odd x = ground (arith, bit_and-one (bit_and x (not64 1)), bit_and-not_one x)

module _ {F : Type 0} (D : Disk F) (rounds clobbered : ℕ) (fl : Floats) (c : Cpu F)
    (zero_kept : ZeroKept c) (guest_pc : ℕ) where
  jal-Leaves :
      (rd link target : ℕ)
      → Leaves D rounds clobbered
          (emit_constant rd link ++ emit_return target)
          c
          (set_reg c rd link)
          target
  unfolding emit_constant emit_return set_reg run step
  jal-Leaves rd link target w x v14 v15 st =
      let o : off rd / 8 ≡ rd = omega arith in
      elim (Bool-cases (rd == 0)) [
        | inl t ↦ (record w { rax = target; flags = none }, (refl, λ rest. rw t refl))
        | inr t ↦ (record w { rax = target; flags = none }, (refl, λ rest. rw (t, o) refl))
      ]

  -- An instruction that ends in one hart at an address, and its code that returns with them.
  left :
      (code : List Op) (o : Cpu F × Exit ⊥ (Unit {0})) (d : Cpu F) (next : ℕ)
      → o ≡ (at d next, ok tt)
      → unmoved c (at d next) ≡ d
      → Leaves D rounds clobbered code c d next
      → (o ≡ (at (unmoved c o.0) o.0.pc, ok tt))
        × Leaves D rounds clobbered code c (unmoved c o.0) o.0.pc
  left code o d next h k l = (
    h ∙ (ap (λ o. (at o.0 o.0.pc, ok tt)) (sym h)),
    subst (λ d. Leaves D rounds clobbered code c d o.0.pc) (sym k ∙ ap (λ o. unmoved c o.0) (sym h))
        (subst (λ n. Leaves D rounds clobbered code c d n) (ap (λ o. o.0.pc) (sym h)) l),
  )

  -- For every branch whose target is even, taken or not, for `jal` to an even target and for `jalr`
  -- with an offset that is the sign extension of its low 32 bits, on a hart whose x0 holds 0: the
  -- interpreter does not trap, and the compiled code returns the address at which the interpreter
  -- ends, with the hart in which it ends but for the program counter and the size of the last
  -- instruction, and with the caller's r14, r15 and stack.
  pub jumps_agree :
      (i : Instruction)
      → Jump guest_pc i
      → let o = execute D rounds fl i (at c guest_pc) in
        (o ≡ (at (unmoved c o.0) o.0.pc, ok tt))
        × Leaves D rounds clobbered (emit i guest_pc).0 c (unmoved c o.0) o.0.pc
  unfolding execute emit emit_words emit_divisions emit_memory emit_jumps reg
  jumps_agree _ (is_beq rs1 rs2 i h) =
      left _ _ c _ (branches c guest_pc _ i h) refl
        (branch-Leaves D rounds clobbered c zero_kept Condition.e rs1 rs2 _ _)
  jumps_agree _ (is_bne rs1 rs2 i h) =
      left _ _ c _ (branches c guest_pc _ i h) refl
        (branch-Leaves D rounds clobbered c zero_kept Condition.ne rs1 rs2 _ _)
  jumps_agree _ (is_blt rs1 rs2 i h) =
      left _ _ c _ (branches c guest_pc _ i h) refl
        (branch-Leaves D rounds clobbered c zero_kept Condition.l rs1 rs2 _ _)
  jumps_agree _ (is_bge rs1 rs2 i h) =
      left _ _ c _ (branches c guest_pc _ i h) refl
        (branch-Leaves D rounds clobbered c zero_kept Condition.ge rs1 rs2 _ _)
  jumps_agree _ (is_bltu rs1 rs2 i h) =
      left _ _ c _ (branches c guest_pc _ i h) refl
        (branch-Leaves D rounds clobbered c zero_kept Condition.b rs1 rs2 _ _)
  jumps_agree _ (is_bgeu rs1 rs2 i h) =
      left _ _ c _
        (ap (λ t. branch t i (at c guest_pc)) (not-ltb (reg c rs1) (reg c rs2))
          ∙ branches c guest_pc _ i h)
        refl (branch-Leaves D rounds clobbered c zero_kept Condition.ae rs1 rs2 _ _)
  jumps_agree _ (is_jal rd i h) =
      left _ _ _ _ (jumps c guest_pc rd _ h) (unmoved-set_reg c (wrapping_add guest_pc i) rd _)
        (jal-Leaves rd _ _)
  jumps_agree _ (is_jalr rd rs1 i h) =
      left _ _ _ _ (jumps c guest_pc rd _ (cleared-is_odd _))
        (unmoved-set_reg c (bit_and (wrapping_add (reg c rs1) i) (not64 1)) rd _)
        (jalr-Leaves D rounds clobbered c zero_kept rd rs1 i _ h)
