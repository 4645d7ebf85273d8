-- ===== src/Jit/Arms.antt =====
-- `compile` of src/jit.rs, by instruction: the assembly for each, and what becomes of the block.
use risc_v_business.Base.{ℕ, List, [], ◌∷◌, ◌++◌, u32, max_u64, wrapping_add}
use risc_v_business.Decode.{
  Instruction, add, sub, sll, slt, sltu, xor, srl, sra, or, and, addw, subw, sllw, srlw, sraw, addi,
  slti, sltiu, xori, ori, andi, slli, srli, srai, addiw, slliw, srliw, sraiw, mul, mulh, mulhu, div,
  divu, rem, remu, mulw, divw, divuw, remw, remuw, lb, lh, lw, ld, lbu, lhu, lwu, sb, sh, sw, sd,
  beq, bne, blt, bge, bltu, bgeu, jal, jalr, lui, auipc, fence,
}
use risc_v_business.Jit.Asm.{
  w64, w32, rax, rcx, rdx, Operand, slot, imm, Binary, imul, shl, shr, sar, Condition, Op, mov_imm,
  mov, binary, shift_cl, shift_imm, cmp, set_al, movzx_al, movsxd, imul_rcx, mul_rcx,
}
use risc_v_business.Jit.Emit.{
  Effect, seq, terminal, unhandled, off, emit_return, emit_load, emit_store, emit_r_op, emit_i_op,
  emit_w_op, emit_iw_op, against_rs2, emit_branch, emit_jalr, signed_64, signed_32, unsigned_64,
  unsigned_32, spread, emit_constant,
}

-- Branches and jumps, which end the block, and the rest of the `match`: `fence` writes nothing, and any
-- other instruction is not compiled.
unfoldable pub emit_jumps : Instruction → (guest_pc : ℕ) → List Op × Effect
emit_jumps (beq rs1 rs2 i) guest_pc =
    (emit_branch Condition.e rs1 rs2 (wrapping_add guest_pc i) (wrapping_add guest_pc 4), terminal)
emit_jumps (bne rs1 rs2 i) guest_pc =
    (emit_branch Condition.ne rs1 rs2 (wrapping_add guest_pc i) (wrapping_add guest_pc 4), terminal)
emit_jumps (blt rs1 rs2 i) guest_pc =
    (emit_branch Condition.l rs1 rs2 (wrapping_add guest_pc i) (wrapping_add guest_pc 4), terminal)
emit_jumps (bge rs1 rs2 i) guest_pc =
    (emit_branch Condition.ge rs1 rs2 (wrapping_add guest_pc i) (wrapping_add guest_pc 4), terminal)
emit_jumps (bltu rs1 rs2 i) guest_pc =
    (emit_branch Condition.b rs1 rs2 (wrapping_add guest_pc i) (wrapping_add guest_pc 4), terminal)
emit_jumps (bgeu rs1 rs2 i) guest_pc =
    (emit_branch Condition.ae rs1 rs2 (wrapping_add guest_pc i) (wrapping_add guest_pc 4), terminal)
emit_jumps (jal rd i) guest_pc =
    (emit_constant rd (wrapping_add guest_pc 4) ++ emit_return (wrapping_add guest_pc i), terminal)
emit_jumps (jalr rd rs1 i) guest_pc = (emit_jalr rd rs1 i (wrapping_add guest_pc 4), terminal)
emit_jumps fence guest_pc = ([], seq)
emit_jumps _ guest_pc = ([], unhandled)

-- Loads and stores.
unfoldable pub emit_memory : Instruction → (guest_pc : ℕ) → List Op × Effect
emit_memory (lb rd rs1 i) guest_pc = (emit_load rd rs1 i 1 guest_pc ++ spread 8 rd, seq)
emit_memory (lh rd rs1 i) guest_pc = (emit_load rd rs1 i 2 guest_pc ++ spread 16 rd, seq)
emit_memory (lw rd rs1 i) guest_pc = (emit_load rd rs1 i 4 guest_pc ++ spread 32 rd, seq)
emit_memory (ld rd rs1 i) guest_pc = (emit_load rd rs1 i 8 guest_pc, seq)
emit_memory (lbu rd rs1 i) guest_pc = (emit_load rd rs1 i 1 guest_pc, seq)
emit_memory (lhu rd rs1 i) guest_pc = (emit_load rd rs1 i 2 guest_pc, seq)
emit_memory (lwu rd rs1 i) guest_pc = (emit_load rd rs1 i 4 guest_pc, seq)
emit_memory (sb rs1 rs2 i) guest_pc = (emit_store rs1 rs2 i 1 guest_pc, seq)
emit_memory (sh rs1 rs2 i) guest_pc = (emit_store rs1 rs2 i 2 guest_pc, seq)
emit_memory (sw rs1 rs2 i) guest_pc = (emit_store rs1 rs2 i 4 guest_pc, seq)
emit_memory (sd rs1 rs2 i) guest_pc = (emit_store rs1 rs2 i 8 guest_pc, seq)
emit_memory i guest_pc = emit_jumps i guest_pc

-- Divisions and remainders.
unfoldable pub emit_divisions : Instruction → (guest_pc : ℕ) → List Op × Effect
emit_divisions (div rd rs1 rs2) guest_pc =
    (signed_64 rd rs1 rs2 (mov_imm rax max_u64 ∷ []) [] [], seq)
emit_divisions (divu rd rs1 rs2) guest_pc =
    (unsigned_64 rd rs1 rs2 (mov_imm rax max_u64 ∷ []) [], seq)
emit_divisions (rem rd rs1 rs2) guest_pc = (
  signed_64 rd rs1 rs2 [] (binary Binary.xor w32 rax (Operand.reg rax) ∷ []) (mov rax rdx ∷ []),
  seq,
)
emit_divisions (remu rd rs1 rs2) guest_pc = (unsigned_64 rd rs1 rs2 [] (mov rax rdx ∷ []), seq)
emit_divisions (divw rd rs1 rs2) guest_pc =
    (signed_32 rd rs1 rs2 (mov_imm rax max_u64 ∷ []) [] (movsxd rax ∷ []), seq)
emit_divisions (divuw rd rs1 rs2) guest_pc =
    (unsigned_32 rd rs1 rs2 (mov_imm rax max_u64 ∷ []) (movsxd rax ∷ []), seq)
emit_divisions (remw rd rs1 rs2) guest_pc = (
  signed_32 rd rs1 rs2 (movsxd rax ∷ []) (binary Binary.xor w32 rax (Operand.reg rax) ∷ [])
      (movsxd rdx ∷ []),
  seq,
)
emit_divisions (remuw rd rs1 rs2) guest_pc =
    (unsigned_32 rd rs1 rs2 (movsxd rax ∷ []) (movsxd rdx ∷ []), seq)
emit_divisions i guest_pc = emit_memory i guest_pc

-- 32-bit operations, constants and products.
unfoldable pub emit_words : Instruction → (guest_pc : ℕ) → List Op × Effect
emit_words (addw rd rs1 rs2) guest_pc =
    (emit_w_op rd rs1 rs2 (binary Binary.add w32 rax (Operand.reg rcx) ∷ []), seq)
emit_words (subw rd rs1 rs2) guest_pc =
    (emit_w_op rd rs1 rs2 (binary Binary.sub w32 rax (Operand.reg rcx) ∷ []), seq)
emit_words (sllw rd rs1 rs2) guest_pc =
    (emit_w_op rd rs1 rs2 (binary Binary.and w32 rcx (imm 31) ∷ shift_cl shl w32 ∷ []), seq)
emit_words (srlw rd rs1 rs2) guest_pc =
    (emit_w_op rd rs1 rs2 (binary Binary.and w32 rcx (imm 31) ∷ shift_cl shr w32 ∷ []), seq)
emit_words (sraw rd rs1 rs2) guest_pc =
    (emit_w_op rd rs1 rs2 (binary Binary.and w32 rcx (imm 31) ∷ shift_cl sar w32 ∷ []), seq)
emit_words (addiw rd rs1 i) guest_pc =
    (emit_iw_op rd rs1 (binary Binary.add w32 rax (imm (u32 i))), seq)
emit_words (slliw rd rs1 shamt) guest_pc = (emit_iw_op rd rs1 (shift_imm shl w32 shamt), seq)
emit_words (srliw rd rs1 shamt) guest_pc = (emit_iw_op rd rs1 (shift_imm shr w32 shamt), seq)
emit_words (sraiw rd rs1 shamt) guest_pc = (emit_iw_op rd rs1 (shift_imm sar w32 shamt), seq)
emit_words (lui rd i) guest_pc = (emit_constant rd i, seq)
emit_words (auipc rd i) guest_pc = (emit_constant rd (wrapping_add guest_pc i), seq)
emit_words (mul rd rs1 rs2) guest_pc =
    (emit_r_op rd rs1 rs2 (binary imul w64 rax (Operand.reg rcx) ∷ []), seq)
emit_words (mulh rd rs1 rs2) guest_pc = (emit_r_op rd rs1 rs2 (imul_rcx ∷ mov rax rdx ∷ []), seq)
emit_words (mulhu rd rs1 rs2) guest_pc = (emit_r_op rd rs1 rs2 (mul_rcx ∷ mov rax rdx ∷ []), seq)
emit_words (mulw rd rs1 rs2) guest_pc =
    (emit_iw_op rd rs1 (binary imul w32 rax (slot (off rs2))), seq)
emit_words i guest_pc = emit_divisions i guest_pc

-- The `match` of `compile`; its arms stand in groups. Operations on registers and immediates.
unfoldable pub emit : Instruction → (guest_pc : ℕ) → List Op × Effect
emit (add rd rs1 rs2) guest_pc =
    (emit_r_op rd rs1 rs2 (binary Binary.add w64 rax (Operand.reg rcx) ∷ []), seq)
emit (sub rd rs1 rs2) guest_pc =
    (emit_r_op rd rs1 rs2 (binary Binary.sub w64 rax (Operand.reg rcx) ∷ []), seq)
emit (and rd rs1 rs2) guest_pc =
    (emit_r_op rd rs1 rs2 (binary Binary.and w64 rax (Operand.reg rcx) ∷ []), seq)
emit (or rd rs1 rs2) guest_pc =
    (emit_r_op rd rs1 rs2 (binary Binary.or w64 rax (Operand.reg rcx) ∷ []), seq)
emit (xor rd rs1 rs2) guest_pc =
    (emit_r_op rd rs1 rs2 (binary Binary.xor w64 rax (Operand.reg rcx) ∷ []), seq)
emit (sll rd rs1 rs2) guest_pc =
    (emit_r_op rd rs1 rs2 (binary Binary.and w64 rcx (imm 63) ∷ shift_cl shl w64 ∷ []), seq)
emit (srl rd rs1 rs2) guest_pc =
    (emit_r_op rd rs1 rs2 (binary Binary.and w64 rcx (imm 63) ∷ shift_cl shr w64 ∷ []), seq)
emit (sra rd rs1 rs2) guest_pc =
    (emit_r_op rd rs1 rs2 (binary Binary.and w64 rcx (imm 63) ∷ shift_cl sar w64 ∷ []), seq)
emit (slt rd rs1 rs2) guest_pc = (against_rs2 Condition.l rd rs1 rs2, seq)
emit (sltu rd rs1 rs2) guest_pc = (against_rs2 Condition.b rd rs1 rs2, seq)
emit (addi rd rs1 i) guest_pc =
    (emit_i_op rd rs1 (binary Binary.add w64 rax (imm (u32 i)) ∷ []), seq)
emit (andi rd rs1 i) guest_pc =
    (emit_i_op rd rs1 (binary Binary.and w64 rax (imm (u32 i)) ∷ []), seq)
emit (ori rd rs1 i) guest_pc = (emit_i_op rd rs1 (binary Binary.or w64 rax (imm (u32 i)) ∷ []), seq)
emit (xori rd rs1 i) guest_pc =
    (emit_i_op rd rs1 (binary Binary.xor w64 rax (imm (u32 i)) ∷ []), seq)
emit (slti rd rs1 i) guest_pc =
    (emit_i_op rd rs1 (cmp rax (imm (u32 i)) ∷ set_al Condition.l ∷ movzx_al ∷ []), seq)
emit (sltiu rd rs1 i) guest_pc =
    (emit_i_op rd rs1 (cmp rax (imm (u32 i)) ∷ set_al Condition.b ∷ movzx_al ∷ []), seq)
emit (slli rd rs1 shamt) guest_pc = (emit_i_op rd rs1 (shift_imm shl w64 shamt ∷ []), seq)
emit (srli rd rs1 shamt) guest_pc = (emit_i_op rd rs1 (shift_imm shr w64 shamt ∷ []), seq)
emit (srai rd rs1 shamt) guest_pc = (emit_i_op rd rs1 (shift_imm sar w64 shamt ∷ []), seq)
emit i guest_pc = emit_words i guest_pc
