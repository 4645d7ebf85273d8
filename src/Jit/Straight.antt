-- ===== src/Jit/Straight.antt =====
-- Straight-line code of src/jit.rs against the interpreter, src/cpu/execute.rs.
use risc_v_business.Base.{
  ℕ, ◌^◌, ◌<◌, ◌≡◌, refl, Bool-cases, inl, inr, ◌==◌, List, u32, wrapping_add, ok,
}
use risc_v_business.VirtioBlk.{Disk}
use risc_v_business.Decode.{
  Instruction, add, sub, sll, slt, sltu, xor, srl, sra, or, and, addw, subw, sllw, srlw, sraw, mul,
  mulh, mulhu, mulw, div, divu, rem, remu, divw, divuw, remw, remuw, addi, slti, sltiu, xori, ori,
  andi, addiw, slli, srli, srai, slliw, srliw, sraiw, lui, auipc, fence,
}
use risc_v_business.Cpu.{Cpu, reg, set_reg}
use risc_v_business.Execute.{write}
use risc_v_business.Execute.Alu.{sext}
use risc_v_business.Execute.Full.{execute}
use risc_v_business.Execute.Float.{Floats}
use risc_v_business.Jit.Asm.{Op}
use risc_v_business.Jit.Arms.{emit, emit_words, emit_divisions, emit_memory, emit_jumps}
use risc_v_business.Jit.Equivalence.{ZeroKept, Simulates}
use risc_v_business.Jit.Arithmetic.{
  add-Gives, sub-Gives, sll-Gives, slt-Gives, sltu-Gives, xor-Gives, srl-Gives, sra-Gives, or-Gives,
  and-Gives, mul-Gives, mulh-Gives, mulhu-Gives, addi-Gives, slti-Gives, sltiu-Gives, xori-Gives,
  ori-Gives, andi-Gives, slli-Gives, srli-Gives, srai-Gives,
}
use risc_v_business.Jit.WordArithmetic.{
  addw-Gives, subw-Gives, sllw-Gives, srlw-Gives, sraw-Gives, addiw-Gives, slliw-Gives, srliw-Gives,
  sraiw-Gives,
}
use risc_v_business.Jit.MoreArithmetic.{
  mulw-Gives, div-Gives, divu-Gives, rem-Gives, remu-Gives, divw-Gives, divuw-Gives, remw-Gives,
  remuw-Gives, lui-Gives, auipc-Gives,
}

-- The arithmetic instructions and `fence`, with immediates and shift amounts that have their widths.
pub data Straight : Instruction → Type 0 where
  is_add : (rd rs1 rs2 : ℕ) → Straight (add rd rs1 rs2)
  is_sub : (rd rs1 rs2 : ℕ) → Straight (sub rd rs1 rs2)
  is_sll : (rd rs1 rs2 : ℕ) → Straight (sll rd rs1 rs2)
  is_slt : (rd rs1 rs2 : ℕ) → Straight (slt rd rs1 rs2)
  is_sltu : (rd rs1 rs2 : ℕ) → Straight (sltu rd rs1 rs2)
  is_xor : (rd rs1 rs2 : ℕ) → Straight (xor rd rs1 rs2)
  is_srl : (rd rs1 rs2 : ℕ) → Straight (srl rd rs1 rs2)
  is_sra : (rd rs1 rs2 : ℕ) → Straight (sra rd rs1 rs2)
  is_or : (rd rs1 rs2 : ℕ) → Straight (or rd rs1 rs2)
  is_and : (rd rs1 rs2 : ℕ) → Straight (and rd rs1 rs2)
  is_addw : (rd rs1 rs2 : ℕ) → Straight (addw rd rs1 rs2)
  is_subw : (rd rs1 rs2 : ℕ) → Straight (subw rd rs1 rs2)
  is_sllw : (rd rs1 rs2 : ℕ) → Straight (sllw rd rs1 rs2)
  is_srlw : (rd rs1 rs2 : ℕ) → Straight (srlw rd rs1 rs2)
  is_sraw : (rd rs1 rs2 : ℕ) → Straight (sraw rd rs1 rs2)
  is_mul : (rd rs1 rs2 : ℕ) → Straight (mul rd rs1 rs2)
  is_mulh : (rd rs1 rs2 : ℕ) → Straight (mulh rd rs1 rs2)
  is_mulhu : (rd rs1 rs2 : ℕ) → Straight (mulhu rd rs1 rs2)
  is_mulw : (rd rs1 rs2 : ℕ) → Straight (mulw rd rs1 rs2)
  is_div : (rd rs1 rs2 : ℕ) → Straight (div rd rs1 rs2)
  is_divu : (rd rs1 rs2 : ℕ) → Straight (divu rd rs1 rs2)
  is_rem : (rd rs1 rs2 : ℕ) → Straight (rem rd rs1 rs2)
  is_remu : (rd rs1 rs2 : ℕ) → Straight (remu rd rs1 rs2)
  is_divw : (rd rs1 rs2 : ℕ) → Straight (divw rd rs1 rs2)
  is_divuw : (rd rs1 rs2 : ℕ) → Straight (divuw rd rs1 rs2)
  is_remw : (rd rs1 rs2 : ℕ) → Straight (remw rd rs1 rs2)
  is_remuw : (rd rs1 rs2 : ℕ) → Straight (remuw rd rs1 rs2)
  is_addi : (rd rs1 i : ℕ) → sext (u32 i) 31 ≡ i → Straight (addi rd rs1 i)
  is_slti : (rd rs1 i : ℕ) → sext (u32 i) 31 ≡ i → Straight (slti rd rs1 i)
  is_sltiu : (rd rs1 i : ℕ) → sext (u32 i) 31 ≡ i → Straight (sltiu rd rs1 i)
  is_xori : (rd rs1 i : ℕ) → sext (u32 i) 31 ≡ i → Straight (xori rd rs1 i)
  is_ori : (rd rs1 i : ℕ) → sext (u32 i) 31 ≡ i → Straight (ori rd rs1 i)
  is_andi : (rd rs1 i : ℕ) → sext (u32 i) 31 ≡ i → Straight (andi rd rs1 i)
  is_addiw : (rd rs1 i : ℕ) → sext (u32 i) 31 ≡ i → Straight (addiw rd rs1 i)
  is_slli : (rd rs1 k : ℕ) → k < 64 → Straight (slli rd rs1 k)
  is_srli : (rd rs1 k : ℕ) → k < 64 → Straight (srli rd rs1 k)
  is_srai : (rd rs1 k : ℕ) → k < 64 → Straight (srai rd rs1 k)
  is_slliw : (rd rs1 k : ℕ) → k < 32 → Straight (slliw rd rs1 k)
  is_srliw : (rd rs1 k : ℕ) → k < 32 → Straight (srliw rd rs1 k)
  is_sraiw : (rd rs1 k : ℕ) → k < 32 → Straight (sraiw rd rs1 k)
  is_lui : (rd i : ℕ) → Straight (lui rd i)
  is_auipc : (rd i : ℕ) → Straight (auipc rd i)
  is_fence : Straight fence

module _ {F : Type 0} where
  -- The interpreter's hart before an instruction of four bytes.
  abbrev pub at : Cpu F → ℕ → Cpu F
  at c guest_pc = record c { pc = guest_pc; inst_size = 4 }

  -- A hart as a block has it, which does not keep up where the hart is.
  abbrev pub unmoved : Cpu F → Cpu F → Cpu F
  unmoved c d = record d { pc = c.pc; inst_size = c.inst_size }

  pub unmoved-set_reg :
      (c : Cpu F) (guest_pc rd v : ℕ) → unmoved c (at (set_reg c rd v) guest_pc) ≡ set_reg c rd v
  unfolding set_reg
  unmoved-set_reg c guest_pc rd v = elim (Bool-cases (rd == 0)) [
    | inl t ↦ rw t refl
    | inr t ↦ rw t refl
  ]

  pub writes :
      (c : Cpu F) (guest_pc rd v : ℕ)
      → write rd v (at c guest_pc) ≡ (at (set_reg c rd v) (wrapping_add guest_pc 4), ok tt)
  unfolding write set_reg
  writes c guest_pc rd v = elim (Bool-cases (rd == 0)) [ inl t ↦ rw t refl | inr t ↦ rw t refl ]

module _ {F : Type 0} (D : Disk F) (rounds clobbered : ℕ) (fl : Floats) (c : Cpu F)
    (zero_kept : ZeroKept c) (bounded : (r : ℕ) → reg c r < 2 ^ 64) (guest_pc : ℕ) where
  -- What an instruction and its code do, where the instruction writes a register.
  written :
      (code : List Op) (rd v : ℕ)
      → Simulates D rounds clobbered code c (set_reg c rd v)
      → let o = write rd v (at c guest_pc) in
        (o ≡ (at (unmoved c o.0) (wrapping_add guest_pc 4), ok tt))
        × Simulates D rounds clobbered code c (unmoved c o.0)
  written code rd v h =
      let next = wrapping_add guest_pc 4 in
      rw (writes c guest_pc rd v, unmoved-set_reg c next rd v) (refl, h)

  -- For every arithmetic instruction but `mulhsu`, and for `fence`, with an immediate that is the
  -- sign extension of its low 32 bits or a shift amount below the width, and on a hart whose x0
  -- holds 0 and whose registers are 64-bit words: the interpreter ends at the next instruction, and
  -- the compiled code, whatever the scratch registers and the stack of the host are and whatever
  -- code follows, goes through with the hart in which the interpreter ends, but for the program
  -- counter and the size of the last instruction, which stay.
  pub arithmetic_agrees :
      (i : Instruction)
      → Straight i
      → let o = execute D rounds fl i (at c guest_pc) in
        (o ≡ (at (unmoved c o.0) (wrapping_add guest_pc 4), ok tt))
        × Simulates D rounds clobbered (emit i guest_pc).0 c (unmoved c o.0)
  unfolding execute emit emit_words emit_divisions emit_memory emit_jumps reg
  arithmetic_agrees _ (is_add rd rs1 rs2) =
      written _ rd _ (add-Gives D rounds clobbered c zero_kept bounded rd rs1 rs2 guest_pc)
  arithmetic_agrees _ (is_sub rd rs1 rs2) =
      written _ rd _ (sub-Gives D rounds clobbered c zero_kept bounded rd rs1 rs2 guest_pc)
  arithmetic_agrees _ (is_sll rd rs1 rs2) =
      written _ rd _ (sll-Gives D rounds clobbered c zero_kept bounded rd rs1 rs2 guest_pc)
  arithmetic_agrees _ (is_slt rd rs1 rs2) =
      written _ rd _ (slt-Gives D rounds clobbered c zero_kept bounded rd rs1 rs2 guest_pc)
  arithmetic_agrees _ (is_sltu rd rs1 rs2) =
      written _ rd _ (sltu-Gives D rounds clobbered c zero_kept bounded rd rs1 rs2 guest_pc)
  arithmetic_agrees _ (is_xor rd rs1 rs2) =
      written _ rd _ (xor-Gives D rounds clobbered c zero_kept bounded rd rs1 rs2 guest_pc)
  arithmetic_agrees _ (is_srl rd rs1 rs2) =
      written _ rd _ (srl-Gives D rounds clobbered c zero_kept bounded rd rs1 rs2 guest_pc)
  arithmetic_agrees _ (is_sra rd rs1 rs2) =
      written _ rd _ (sra-Gives D rounds clobbered c zero_kept bounded rd rs1 rs2 guest_pc)
  arithmetic_agrees _ (is_or rd rs1 rs2) =
      written _ rd _ (or-Gives D rounds clobbered c zero_kept bounded rd rs1 rs2 guest_pc)
  arithmetic_agrees _ (is_and rd rs1 rs2) =
      written _ rd _ (and-Gives D rounds clobbered c zero_kept bounded rd rs1 rs2 guest_pc)
  arithmetic_agrees _ (is_addw rd rs1 rs2) =
      written _ rd _ (addw-Gives D rounds clobbered c zero_kept bounded rd rs1 rs2 guest_pc)
  arithmetic_agrees _ (is_subw rd rs1 rs2) =
      written _ rd _ (subw-Gives D rounds clobbered c zero_kept bounded rd rs1 rs2 guest_pc)
  arithmetic_agrees _ (is_sllw rd rs1 rs2) =
      written _ rd _ (sllw-Gives D rounds clobbered c zero_kept bounded rd rs1 rs2 guest_pc)
  arithmetic_agrees _ (is_srlw rd rs1 rs2) =
      written _ rd _ (srlw-Gives D rounds clobbered c zero_kept bounded rd rs1 rs2 guest_pc)
  arithmetic_agrees _ (is_sraw rd rs1 rs2) =
      written _ rd _ (sraw-Gives D rounds clobbered c zero_kept bounded rd rs1 rs2 guest_pc)
  arithmetic_agrees _ (is_mul rd rs1 rs2) =
      written _ rd _ (mul-Gives D rounds clobbered c zero_kept bounded rd rs1 rs2 guest_pc)
  arithmetic_agrees _ (is_mulh rd rs1 rs2) =
      written _ rd _ (mulh-Gives D rounds clobbered c zero_kept bounded rd rs1 rs2 guest_pc)
  arithmetic_agrees _ (is_mulhu rd rs1 rs2) =
      written _ rd _ (mulhu-Gives D rounds clobbered c zero_kept bounded rd rs1 rs2 guest_pc)
  arithmetic_agrees _ (is_mulw rd rs1 rs2) =
      written _ rd _ (mulw-Gives D rounds clobbered c zero_kept bounded rd rs1 rs2 guest_pc)
  arithmetic_agrees _ (is_div rd rs1 rs2) =
      written _ rd _ (div-Gives D rounds clobbered c zero_kept bounded rd rs1 rs2 guest_pc)
  arithmetic_agrees _ (is_divu rd rs1 rs2) =
      written _ rd _ (divu-Gives D rounds clobbered c zero_kept bounded rd rs1 rs2 guest_pc)
  arithmetic_agrees _ (is_rem rd rs1 rs2) =
      written _ rd _ (rem-Gives D rounds clobbered c zero_kept bounded rd rs1 rs2 guest_pc)
  arithmetic_agrees _ (is_remu rd rs1 rs2) =
      written _ rd _ (remu-Gives D rounds clobbered c zero_kept bounded rd rs1 rs2 guest_pc)
  arithmetic_agrees _ (is_divw rd rs1 rs2) =
      written _ rd _ (divw-Gives D rounds clobbered c zero_kept bounded rd rs1 rs2 guest_pc)
  arithmetic_agrees _ (is_divuw rd rs1 rs2) =
      written _ rd _ (divuw-Gives D rounds clobbered c zero_kept bounded rd rs1 rs2 guest_pc)
  arithmetic_agrees _ (is_remw rd rs1 rs2) =
      written _ rd _ (remw-Gives D rounds clobbered c zero_kept bounded rd rs1 rs2 guest_pc)
  arithmetic_agrees _ (is_remuw rd rs1 rs2) =
      written _ rd _ (remuw-Gives D rounds clobbered c zero_kept bounded rd rs1 rs2 guest_pc)
  arithmetic_agrees _ (is_addi rd rs1 i h) =
      written _ rd _ (addi-Gives D rounds clobbered c zero_kept bounded rd rs1 i guest_pc h)
  arithmetic_agrees _ (is_slti rd rs1 i h) =
      written _ rd _ (slti-Gives D rounds clobbered c zero_kept bounded rd rs1 i guest_pc h)
  arithmetic_agrees _ (is_sltiu rd rs1 i h) =
      written _ rd _ (sltiu-Gives D rounds clobbered c zero_kept bounded rd rs1 i guest_pc h)
  arithmetic_agrees _ (is_xori rd rs1 i h) =
      written _ rd _ (xori-Gives D rounds clobbered c zero_kept bounded rd rs1 i guest_pc h)
  arithmetic_agrees _ (is_ori rd rs1 i h) =
      written _ rd _ (ori-Gives D rounds clobbered c zero_kept bounded rd rs1 i guest_pc h)
  arithmetic_agrees _ (is_andi rd rs1 i h) =
      written _ rd _ (andi-Gives D rounds clobbered c zero_kept bounded rd rs1 i guest_pc h)
  arithmetic_agrees _ (is_addiw rd rs1 i h) =
      written _ rd _ (addiw-Gives D rounds clobbered c zero_kept bounded rd rs1 i guest_pc h)
  arithmetic_agrees _ (is_slli rd rs1 i h) =
      written _ rd _ (slli-Gives D rounds clobbered c zero_kept bounded rd rs1 i guest_pc h)
  arithmetic_agrees _ (is_srli rd rs1 i h) =
      written _ rd _ (srli-Gives D rounds clobbered c zero_kept bounded rd rs1 i guest_pc h)
  arithmetic_agrees _ (is_srai rd rs1 i h) =
      written _ rd _ (srai-Gives D rounds clobbered c zero_kept bounded rd rs1 i guest_pc h)
  arithmetic_agrees _ (is_slliw rd rs1 i h) =
      written _ rd _ (slliw-Gives D rounds clobbered c zero_kept bounded rd rs1 i guest_pc h)
  arithmetic_agrees _ (is_srliw rd rs1 i h) =
      written _ rd _ (srliw-Gives D rounds clobbered c zero_kept bounded rd rs1 i guest_pc h)
  arithmetic_agrees _ (is_sraiw rd rs1 i h) =
      written _ rd _ (sraiw-Gives D rounds clobbered c zero_kept bounded rd rs1 i guest_pc h)
  arithmetic_agrees _ (is_lui rd i) = written _ rd _ (lui-Gives D rounds clobbered c rd i guest_pc)
  arithmetic_agrees _ (is_auipc rd i) =
      written _ rd _ (auipc-Gives D rounds clobbered c rd i guest_pc)
  arithmetic_agrees _ is_fence = (refl, λ w st. (w, record { leads = λ rest. refl }))
