-- ===== src/Execute/Full.antt =====
-- `execute`, src/cpu/execute.rs: the whole `match` on the instruction, with the branches and jumps.
use risc_v_business.Base.{
  ℕ, Bool, not, ltb, leb, ◌==◌, if◌then◌else◌, bit_and, bit_or, bit_xor, not64, ◌>>>◌, ◌<<<◌, asr64,
  wrapping_add, wrapping_sub, ok,
}
use risc_v_business.VirtioBlk.{Disk}
use risc_v_business.Decode.{
  Instruction, add, sub, sll, slt, sltu, xor, srl, sra, or, and, addw, subw, sllw, srlw, sraw, addi,
  slti, sltiu, xori, ori, andi, slli, srli, srai, addiw, slliw, srliw, sraiw, mul, mulh, mulhsu,
  mulhu, div, divu, rem, remu, mulw, divw, divuw, remw, remuw, lb, lh, lw, ld, lbu, lhu, lwu, sb,
  sh, sw, sd, flw, fld, fsw, fsd, lr_d, lr_w, sc_d, sc_w, amoswap_d, amoswap_w, amoadd_d, amoadd_w,
  amoxor_d, amoxor_w, amoand_d, amoand_w, amoor_d, amoor_w, amomin_d, amomin_w, amomax_d, amomax_w,
  amominu_d, amominu_w, amomaxu_d, amomaxu_w, op_fp, fma, beq, bne, blt, bge, bltu, bgeu, jal, jalr,
  lui, auipc, fence, wfi, ecall, ebreak, mret, sret, sfence_vma, csrrw, csrrs, csrrc, csrrwi,
  csrrsi, csrrci,
}
use risc_v_business.Cpu.{reg, set_reg, deliver_trap}
use risc_v_business.Cpu.System
use risc_v_business.Cpu.System.{swap, set_bits, clear_bits, next, csr_register, csr_immediate}
use risc_v_business.Execute.{Arm, done, next_pc, write}
use risc_v_business.Execute.Alu.{
  sext, as_number, signed_lt, shift_left_w, shift_right_w, shift_signed_w, mul_value, mulh_value,
  mulhsu_value, mulhu_value, mulw_value, div_value, divu_value, rem_value, remu_value, divw_value,
  divuw_value, remw_value, remuw_value,
}
use risc_v_business.Execute.Float
use risc_v_business.Execute.Float.{Floats}
use risc_v_business.Execute.Memory.{
  amo_swap, amo_add, amo_xor, amo_and, amo_or, amo_min, amo_max, amo_minu, amo_maxu, amo_d, amo_w,
  load_integer, load_float, store_integer, store_float, load_reserved, store_conditional, amo,
}

-- A single from memory, boxed.
abbrev pub box_word : ℕ → ℕ
box_word v = bit_or 0xFFFF_FFFF_0000_0000 (bit_and v 0xFFFF_FFFF)

abbrev pub is_odd : ℕ → Bool
is_odd target = not (bit_and target 1 == 0)

module _ {F : Type 0} where
  unfoldable pub branch : Bool → ℕ → Arm F
  branch taken imm c =
      let target = wrapping_add c.pc imm in
      if taken
      then (if is_odd target
          then (deliver_trap c 0 target, ok tt)
          else (record c { pc = target }, ok tt))
      else done next c

  -- A jump that leaves the address of the next instruction in a register.
  unfoldable pub jump : ℕ → ℕ → Arm F
  jump rd target c =
      if is_odd target
      then (deliver_trap c 0 target, ok tt)
      else (record (set_reg c rd (next_pc c)) { pc = target }, ok tt)

  module _ (D : Disk F) (rounds : ℕ) (fl : Floats) where
    unfoldable pub execute : Instruction → Arm F
    execute (add rd rs1 rs2) c = write rd (wrapping_add (reg c rs1) (reg c rs2)) c
    execute (sub rd rs1 rs2) c = write rd (wrapping_sub (reg c rs1) (reg c rs2)) c
    execute (sll rd rs1 rs2) c = write rd (reg c rs1 <<< bit_and (reg c rs2) 0x3f) c
    execute (slt rd rs1 rs2) c = write rd (as_number (signed_lt (reg c rs1) (reg c rs2))) c
    execute (sltu rd rs1 rs2) c = write rd (as_number (ltb (reg c rs1) (reg c rs2))) c
    execute (xor rd rs1 rs2) c = write rd (bit_xor (reg c rs1) (reg c rs2)) c
    execute (srl rd rs1 rs2) c = write rd (reg c rs1 >>> bit_and (reg c rs2) 0x3f) c
    execute (sra rd rs1 rs2) c = write rd (asr64 (reg c rs1) (bit_and (reg c rs2) 0x3f)) c
    execute (or rd rs1 rs2) c = write rd (bit_or (reg c rs1) (reg c rs2)) c
    execute (and rd rs1 rs2) c = write rd (bit_and (reg c rs1) (reg c rs2)) c
    execute (addw rd rs1 rs2) c = write rd (sext (wrapping_add (reg c rs1) (reg c rs2)) 31) c
    execute (subw rd rs1 rs2) c = write rd (sext (wrapping_sub (reg c rs1) (reg c rs2)) 31) c
    execute (sllw rd rs1 rs2) c = write rd (shift_left_w (reg c rs1) (bit_and (reg c rs2) 0x1f)) c
    execute (srlw rd rs1 rs2) c = write rd (shift_right_w (reg c rs1) (bit_and (reg c rs2) 0x1f)) c
    execute (sraw rd rs1 rs2) c = write rd (shift_signed_w (reg c rs1) (bit_and (reg c rs2) 0x1f)) c
    execute (addi rd rs1 imm) c = write rd (wrapping_add (reg c rs1) imm) c
    execute (slti rd rs1 imm) c = write rd (as_number (signed_lt (reg c rs1) imm)) c
    execute (sltiu rd rs1 imm) c = write rd (as_number (ltb (reg c rs1) imm)) c
    execute (xori rd rs1 imm) c = write rd (bit_xor (reg c rs1) imm) c
    execute (ori rd rs1 imm) c = write rd (bit_or (reg c rs1) imm) c
    execute (andi rd rs1 imm) c = write rd (bit_and (reg c rs1) imm) c
    execute (slli rd rs1 shamt) c = write rd (reg c rs1 <<< shamt) c
    execute (srli rd rs1 shamt) c = write rd (reg c rs1 >>> shamt) c
    execute (srai rd rs1 shamt) c = write rd (asr64 (reg c rs1) shamt) c
    execute (addiw rd rs1 imm) c = write rd (sext (wrapping_add (reg c rs1) imm) 31) c
    execute (slliw rd rs1 shamt) c = write rd (shift_left_w (reg c rs1) shamt) c
    execute (srliw rd rs1 shamt) c = write rd (shift_right_w (reg c rs1) shamt) c
    execute (sraiw rd rs1 shamt) c = write rd (shift_signed_w (reg c rs1) shamt) c
    execute (mul rd rs1 rs2) c = write rd (mul_value (reg c rs1) (reg c rs2)) c
    execute (mulh rd rs1 rs2) c = write rd (mulh_value (reg c rs1) (reg c rs2)) c
    execute (mulhsu rd rs1 rs2) c = write rd (mulhsu_value (reg c rs1) (reg c rs2)) c
    execute (mulhu rd rs1 rs2) c = write rd (mulhu_value (reg c rs1) (reg c rs2)) c
    execute (div rd rs1 rs2) c = write rd (div_value (reg c rs1) (reg c rs2)) c
    execute (divu rd rs1 rs2) c = write rd (divu_value (reg c rs1) (reg c rs2)) c
    execute (rem rd rs1 rs2) c = write rd (rem_value (reg c rs1) (reg c rs2)) c
    execute (remu rd rs1 rs2) c = write rd (remu_value (reg c rs1) (reg c rs2)) c
    execute (mulw rd rs1 rs2) c = write rd (mulw_value (reg c rs1) (reg c rs2)) c
    execute (divw rd rs1 rs2) c = write rd (divw_value (reg c rs1) (reg c rs2)) c
    execute (divuw rd rs1 rs2) c = write rd (divuw_value (reg c rs1) (reg c rs2)) c
    execute (remw rd rs1 rs2) c = write rd (remw_value (reg c rs1) (reg c rs2)) c
    execute (remuw rd rs1 rs2) c = write rd (remuw_value (reg c rs1) (reg c rs2)) c
    execute (lb rd rs1 imm) c = load_integer D rounds 1 (λ v. sext v 7) rd rs1 imm c
    execute (lh rd rs1 imm) c = load_integer D rounds 2 (λ v. sext v 15) rd rs1 imm c
    execute (lw rd rs1 imm) c = load_integer D rounds 4 (λ v. sext v 31) rd rs1 imm c
    execute (ld rd rs1 imm) c = load_integer D rounds 8 (λ v. v) rd rs1 imm c
    execute (lbu rd rs1 imm) c = load_integer D rounds 1 (λ v. v) rd rs1 imm c
    execute (lhu rd rs1 imm) c = load_integer D rounds 2 (λ v. v) rd rs1 imm c
    execute (lwu rd rs1 imm) c = load_integer D rounds 4 (λ v. v) rd rs1 imm c
    execute (sb rs1 rs2 imm) c = store_integer D rounds 1 rs1 rs2 imm c
    execute (sh rs1 rs2 imm) c = store_integer D rounds 2 rs1 rs2 imm c
    execute (sw rs1 rs2 imm) c = store_integer D rounds 4 rs1 rs2 imm c
    execute (sd rs1 rs2 imm) c = store_integer D rounds 8 rs1 rs2 imm c
    execute (flw fd rs1 imm) c = load_float D rounds 4 box_word fd rs1 imm c
    execute (fld fd rs1 imm) c = load_float D rounds 8 (λ v. v) fd rs1 imm c
    execute (fsw rs1 fs2 imm) c = store_float D rounds 4 rs1 fs2 imm c
    execute (fsd rs1 fs2 imm) c = store_float D rounds 8 rs1 fs2 imm c
    execute (lr_d rd rs1) c = load_reserved D rounds 8 (λ v. v) rd rs1 c
    execute (lr_w rd rs1) c = load_reserved D rounds 4 (λ v. sext v 31) rd rs1 c
    execute (sc_d rd rs1 rs2) c = store_conditional D rounds 8 rd rs1 rs2 c
    execute (sc_w rd rs1 rs2) c = store_conditional D rounds 4 rd rs1 rs2 c
    execute (amoswap_d rd rs1 rs2) c = amo D rounds 8 (λ v. v) (amo_d amo_swap) rd rs1 rs2 c
    execute (amoswap_w rd rs1 rs2) c = amo D rounds 4 (λ v. sext v 31) (amo_w amo_swap) rd rs1 rs2 c
    execute (amoadd_d rd rs1 rs2) c = amo D rounds 8 (λ v. v) (amo_d amo_add) rd rs1 rs2 c
    execute (amoadd_w rd rs1 rs2) c = amo D rounds 4 (λ v. sext v 31) (amo_w amo_add) rd rs1 rs2 c
    execute (amoxor_d rd rs1 rs2) c = amo D rounds 8 (λ v. v) (amo_d amo_xor) rd rs1 rs2 c
    execute (amoxor_w rd rs1 rs2) c = amo D rounds 4 (λ v. sext v 31) (amo_w amo_xor) rd rs1 rs2 c
    execute (amoand_d rd rs1 rs2) c = amo D rounds 8 (λ v. v) (amo_d amo_and) rd rs1 rs2 c
    execute (amoand_w rd rs1 rs2) c = amo D rounds 4 (λ v. sext v 31) (amo_w amo_and) rd rs1 rs2 c
    execute (amoor_d rd rs1 rs2) c = amo D rounds 8 (λ v. v) (amo_d amo_or) rd rs1 rs2 c
    execute (amoor_w rd rs1 rs2) c = amo D rounds 4 (λ v. sext v 31) (amo_w amo_or) rd rs1 rs2 c
    execute (amomin_d rd rs1 rs2) c = amo D rounds 8 (λ v. v) (amo_d amo_min) rd rs1 rs2 c
    execute (amomin_w rd rs1 rs2) c = amo D rounds 4 (λ v. sext v 31) (amo_w amo_min) rd rs1 rs2 c
    execute (amomax_d rd rs1 rs2) c = amo D rounds 8 (λ v. v) (amo_d amo_max) rd rs1 rs2 c
    execute (amomax_w rd rs1 rs2) c = amo D rounds 4 (λ v. sext v 31) (amo_w amo_max) rd rs1 rs2 c
    execute (amominu_d rd rs1 rs2) c = amo D rounds 8 (λ v. v) (amo_d amo_minu) rd rs1 rs2 c
    execute (amominu_w rd rs1 rs2) c = amo D rounds 4 (λ v. sext v 31) (amo_w amo_minu) rd rs1 rs2 c
    execute (amomaxu_d rd rs1 rs2) c = amo D rounds 8 (λ v. v) (amo_d amo_maxu) rd rs1 rs2 c
    execute (amomaxu_w rd rs1 rs2) c = amo D rounds 4 (λ v. sext v 31) (amo_w amo_maxu) rd rs1 rs2 c
    execute (op_fp funct7 rs2 rs1 rm rd) c = Float.op_fp fl funct7 rs2 rs1 rm rd c
    execute (fma opcode fmt rs3 rs2 rs1 rd) c = Float.fma fl opcode fmt rs3 rs2 rs1 rd c
    execute (beq rs1 rs2 imm) c = branch (reg c rs1 == reg c rs2) imm c
    execute (bne rs1 rs2 imm) c = branch (not (reg c rs1 == reg c rs2)) imm c
    execute (blt rs1 rs2 imm) c = branch (signed_lt (reg c rs1) (reg c rs2)) imm c
    execute (bge rs1 rs2 imm) c = branch (not (signed_lt (reg c rs1) (reg c rs2))) imm c
    execute (bltu rs1 rs2 imm) c = branch (ltb (reg c rs1) (reg c rs2)) imm c
    execute (bgeu rs1 rs2 imm) c = branch (leb (reg c rs2) (reg c rs1)) imm c
    execute (jal rd imm) c = jump rd (wrapping_add c.pc imm) c
    execute (jalr rd rs1 imm) c = jump rd (bit_and (wrapping_add (reg c rs1) imm) (not64 1)) c
    execute (lui rd imm) c = write rd imm c
    execute (auipc rd imm) c = write rd (wrapping_add c.pc imm) c
    execute fence c = done next c
    execute wfi c = done next c
    execute ecall c = done System.ecall c
    execute ebreak c = done System.ebreak c
    execute mret c = done System.mret c
    execute sret c = done System.sret c
    execute sfence_vma c = done System.sfence_vma c
    execute (csrrw rd rs1 csr) c = done (csr_register swap rd rs1 csr) c
    execute (csrrs rd rs1 csr) c = done (csr_register set_bits rd rs1 csr) c
    execute (csrrc rd rs1 csr) c = done (csr_register clear_bits rd rs1 csr) c
    execute (csrrwi rd uimm csr) c = done (csr_immediate swap rd uimm csr) c
    execute (csrrsi rd uimm csr) c = done (csr_immediate set_bits rd uimm csr) c
    execute (csrrci rd uimm csr) c = done (csr_immediate clear_bits rd uimm csr) c
