-- ===== src/Execute/Invariant.antt =====
-- The invariant of the hart through every arm of `execute`, src/cpu/execute.rs.
pub mod Control
pub mod Accesses
use risc_v_business.Base.{
  ℕ, ◌≡◌, Bool, true, false, not, ◌&&◌, ◌||◌, if◌then◌else◌, ◌==◌, length-set, arith, bit_and-one,
  wrapping_add, none, some,
}
use risc_v_business.VirtioBlk.{Disk}
use risc_v_business.Decode.{
  Instruction, add, sub, sll, slt, sltu, xor, srl, sra, or, and, addw, subw, sllw, srlw, sraw, addi,
  slti, sltiu, xori, ori, andi, slli, srli, srai, addiw, slliw, srliw, sraiw, mul, mulh, mulhsu,
  mulhu, div, divu, rem, remu, mulw, divw, divuw, remw, remuw, lb, lh, lw, ld, lbu, lhu, lwu, sb,
  sh, sw, sd, flw, fld, fsw, fsd, lr_d, lr_w, sc_d, sc_w, amoswap_d, amoswap_w, amoadd_d, amoadd_w,
  amoxor_d, amoxor_w, amoand_d, amoand_w, amoor_d, amoor_w, amomin_d, amomin_w, amomax_d, amomax_w,
  amominu_d, amominu_w, amomaxu_d, amomaxu_w, op_fp, fma, beq, bne, blt, bge, bltu, bgeu, jal, jalr,
  lui, auipc, fence, wfi, ecall, ebreak, mret, sret, sfence_vma, csrrw, csrrs, csrrc, csrrwi,
  csrrsi, csrrci,
}
use risc_v_business.Csr
use risc_v_business.Cpu.{Cpu, reg, set_reg, deliver_trap, csr_read, csr_write}
use risc_v_business.Cpu.System
use risc_v_business.Cpu.System.{
  CsrOp, csr_value, is_swap, satp_address, traps_vm, next, note_root, csr_access,
}
use risc_v_business.Cpu.Invariant.{
  IsEven, WellFormed, set_reg-WellFormed, csr_write-WellFormed, deliver_trap-WellFormed,
}
use risc_v_business.Execute.{done, modify, next_pc}
use risc_v_business.Execute.Float
use risc_v_business.Execute.Float.{
  Floats, Outcome, to_float, to_integer, trap_unmarked, trap_marked, mark, set_freg, finish,
}
use risc_v_business.Execute.Memory.{
  is_reserved, load_integer, load_float, store_integer, store_float, load_reserved, conditional,
  store_conditional, amo,
}
use risc_v_business.Execute.Full.{is_odd, branch, jump, execute}
use risc_v_business.Execute.Keeps.{
  Keeps, bind-Keeps, if-Keeps, set_pc-WellFormed, next_pc-IsEven, attempt-Keeps, write-Keeps,
  bus_load-Keeps, bus_load_or_zero-Keeps, translate-Keeps, bus_store_ok-Keeps, mmu_load-Keeps,
  mmu_store-Keeps,
}
use risc_v_business.Execute.Invariant.Control.{
  next-Keeps, branch-Keeps, jump-Keeps, op_fp-Keeps, fma-Keeps, ecall-Keeps, ebreak-Keeps,
  mret-Keeps, sret-Keeps, sfence_vma-Keeps, csr_register-Keeps, csr_immediate-Keeps,
}
use risc_v_business.Execute.Invariant.Accesses.{
  load_integer-Keeps, load_float-Keeps, store_integer-Keeps, store_float-Keeps, load_reserved-Keeps,
  store_conditional-Keeps, amo-Keeps,
}

module _ {F : Type 0} where
  module _ (D : Disk F) (rounds : ℕ) where
    -- Every instruction, whatever its operands, keeps the invariant of the hart, also where the memory
    -- or a device stops it: 32 registers of each kind, x0 holding 0, and an even `pc`, `mepc` and
    -- `sepc`.
    pub execute-WellFormed :
        (fl : Floats) (i : Instruction) (c : Cpu F)
        → WellFormed c
        → WellFormed (execute D rounds fl i c).0
    unfolding execute
    execute-WellFormed fl (add rd rs1 rs2) c h = (write-Keeps _ _).kept c h
    execute-WellFormed fl (sub rd rs1 rs2) c h = (write-Keeps _ _).kept c h
    execute-WellFormed fl (sll rd rs1 rs2) c h = (write-Keeps _ _).kept c h
    execute-WellFormed fl (slt rd rs1 rs2) c h = (write-Keeps _ _).kept c h
    execute-WellFormed fl (sltu rd rs1 rs2) c h = (write-Keeps _ _).kept c h
    execute-WellFormed fl (xor rd rs1 rs2) c h = (write-Keeps _ _).kept c h
    execute-WellFormed fl (srl rd rs1 rs2) c h = (write-Keeps _ _).kept c h
    execute-WellFormed fl (sra rd rs1 rs2) c h = (write-Keeps _ _).kept c h
    execute-WellFormed fl (or rd rs1 rs2) c h = (write-Keeps _ _).kept c h
    execute-WellFormed fl (and rd rs1 rs2) c h = (write-Keeps _ _).kept c h
    execute-WellFormed fl (addw rd rs1 rs2) c h = (write-Keeps _ _).kept c h
    execute-WellFormed fl (subw rd rs1 rs2) c h = (write-Keeps _ _).kept c h
    execute-WellFormed fl (sllw rd rs1 rs2) c h = (write-Keeps _ _).kept c h
    execute-WellFormed fl (srlw rd rs1 rs2) c h = (write-Keeps _ _).kept c h
    execute-WellFormed fl (sraw rd rs1 rs2) c h = (write-Keeps _ _).kept c h
    execute-WellFormed fl (addi rd rs1 imm) c h = (write-Keeps _ _).kept c h
    execute-WellFormed fl (slti rd rs1 imm) c h = (write-Keeps _ _).kept c h
    execute-WellFormed fl (sltiu rd rs1 imm) c h = (write-Keeps _ _).kept c h
    execute-WellFormed fl (xori rd rs1 imm) c h = (write-Keeps _ _).kept c h
    execute-WellFormed fl (ori rd rs1 imm) c h = (write-Keeps _ _).kept c h
    execute-WellFormed fl (andi rd rs1 imm) c h = (write-Keeps _ _).kept c h
    execute-WellFormed fl (slli rd rs1 shamt) c h = (write-Keeps _ _).kept c h
    execute-WellFormed fl (srli rd rs1 shamt) c h = (write-Keeps _ _).kept c h
    execute-WellFormed fl (srai rd rs1 shamt) c h = (write-Keeps _ _).kept c h
    execute-WellFormed fl (addiw rd rs1 imm) c h = (write-Keeps _ _).kept c h
    execute-WellFormed fl (slliw rd rs1 shamt) c h = (write-Keeps _ _).kept c h
    execute-WellFormed fl (srliw rd rs1 shamt) c h = (write-Keeps _ _).kept c h
    execute-WellFormed fl (sraiw rd rs1 shamt) c h = (write-Keeps _ _).kept c h
    execute-WellFormed fl (mul rd rs1 rs2) c h = (write-Keeps _ _).kept c h
    execute-WellFormed fl (mulh rd rs1 rs2) c h = (write-Keeps _ _).kept c h
    execute-WellFormed fl (mulhsu rd rs1 rs2) c h = (write-Keeps _ _).kept c h
    execute-WellFormed fl (mulhu rd rs1 rs2) c h = (write-Keeps _ _).kept c h
    execute-WellFormed fl (div rd rs1 rs2) c h = (write-Keeps _ _).kept c h
    execute-WellFormed fl (divu rd rs1 rs2) c h = (write-Keeps _ _).kept c h
    execute-WellFormed fl (rem rd rs1 rs2) c h = (write-Keeps _ _).kept c h
    execute-WellFormed fl (remu rd rs1 rs2) c h = (write-Keeps _ _).kept c h
    execute-WellFormed fl (mulw rd rs1 rs2) c h = (write-Keeps _ _).kept c h
    execute-WellFormed fl (divw rd rs1 rs2) c h = (write-Keeps _ _).kept c h
    execute-WellFormed fl (divuw rd rs1 rs2) c h = (write-Keeps _ _).kept c h
    execute-WellFormed fl (remw rd rs1 rs2) c h = (write-Keeps _ _).kept c h
    execute-WellFormed fl (remuw rd rs1 rs2) c h = (write-Keeps _ _).kept c h
    execute-WellFormed fl (lb rd rs1 imm) c h = (load_integer-Keeps D rounds _ _ _ _ _).kept c h
    execute-WellFormed fl (lh rd rs1 imm) c h = (load_integer-Keeps D rounds _ _ _ _ _).kept c h
    execute-WellFormed fl (lw rd rs1 imm) c h = (load_integer-Keeps D rounds _ _ _ _ _).kept c h
    execute-WellFormed fl (ld rd rs1 imm) c h = (load_integer-Keeps D rounds _ _ _ _ _).kept c h
    execute-WellFormed fl (lbu rd rs1 imm) c h = (load_integer-Keeps D rounds _ _ _ _ _).kept c h
    execute-WellFormed fl (lhu rd rs1 imm) c h = (load_integer-Keeps D rounds _ _ _ _ _).kept c h
    execute-WellFormed fl (lwu rd rs1 imm) c h = (load_integer-Keeps D rounds _ _ _ _ _).kept c h
    execute-WellFormed fl (sb rs1 rs2 imm) c h = (store_integer-Keeps D rounds _ _ _ _).kept c h
    execute-WellFormed fl (sh rs1 rs2 imm) c h = (store_integer-Keeps D rounds _ _ _ _).kept c h
    execute-WellFormed fl (sw rs1 rs2 imm) c h = (store_integer-Keeps D rounds _ _ _ _).kept c h
    execute-WellFormed fl (sd rs1 rs2 imm) c h = (store_integer-Keeps D rounds _ _ _ _).kept c h
    execute-WellFormed fl (flw fd rs1 imm) c h = (load_float-Keeps D rounds _ _ _ _ _).kept c h
    execute-WellFormed fl (fld fd rs1 imm) c h = (load_float-Keeps D rounds _ _ _ _ _).kept c h
    execute-WellFormed fl (fsw rs1 fs2 imm) c h = (store_float-Keeps D rounds _ _ _ _).kept c h
    execute-WellFormed fl (fsd rs1 fs2 imm) c h = (store_float-Keeps D rounds _ _ _ _).kept c h
    execute-WellFormed fl (lr_d rd rs1) c h = (load_reserved-Keeps D rounds _ _ _ _).kept c h
    execute-WellFormed fl (lr_w rd rs1) c h = (load_reserved-Keeps D rounds _ _ _ _).kept c h
    execute-WellFormed fl (sc_d rd rs1 rs2) c h =
        (store_conditional-Keeps D rounds _ _ _ _).kept c h
    execute-WellFormed fl (sc_w rd rs1 rs2) c h =
        (store_conditional-Keeps D rounds _ _ _ _).kept c h
    execute-WellFormed fl (amoswap_d rd rs1 rs2) c h = (amo-Keeps D rounds _ _ _ _ _ _).kept c h
    execute-WellFormed fl (amoswap_w rd rs1 rs2) c h = (amo-Keeps D rounds _ _ _ _ _ _).kept c h
    execute-WellFormed fl (amoadd_d rd rs1 rs2) c h = (amo-Keeps D rounds _ _ _ _ _ _).kept c h
    execute-WellFormed fl (amoadd_w rd rs1 rs2) c h = (amo-Keeps D rounds _ _ _ _ _ _).kept c h
    execute-WellFormed fl (amoxor_d rd rs1 rs2) c h = (amo-Keeps D rounds _ _ _ _ _ _).kept c h
    execute-WellFormed fl (amoxor_w rd rs1 rs2) c h = (amo-Keeps D rounds _ _ _ _ _ _).kept c h
    execute-WellFormed fl (amoand_d rd rs1 rs2) c h = (amo-Keeps D rounds _ _ _ _ _ _).kept c h
    execute-WellFormed fl (amoand_w rd rs1 rs2) c h = (amo-Keeps D rounds _ _ _ _ _ _).kept c h
    execute-WellFormed fl (amoor_d rd rs1 rs2) c h = (amo-Keeps D rounds _ _ _ _ _ _).kept c h
    execute-WellFormed fl (amoor_w rd rs1 rs2) c h = (amo-Keeps D rounds _ _ _ _ _ _).kept c h
    execute-WellFormed fl (amomin_d rd rs1 rs2) c h = (amo-Keeps D rounds _ _ _ _ _ _).kept c h
    execute-WellFormed fl (amomin_w rd rs1 rs2) c h = (amo-Keeps D rounds _ _ _ _ _ _).kept c h
    execute-WellFormed fl (amomax_d rd rs1 rs2) c h = (amo-Keeps D rounds _ _ _ _ _ _).kept c h
    execute-WellFormed fl (amomax_w rd rs1 rs2) c h = (amo-Keeps D rounds _ _ _ _ _ _).kept c h
    execute-WellFormed fl (amominu_d rd rs1 rs2) c h = (amo-Keeps D rounds _ _ _ _ _ _).kept c h
    execute-WellFormed fl (amominu_w rd rs1 rs2) c h = (amo-Keeps D rounds _ _ _ _ _ _).kept c h
    execute-WellFormed fl (amomaxu_d rd rs1 rs2) c h = (amo-Keeps D rounds _ _ _ _ _ _).kept c h
    execute-WellFormed fl (amomaxu_w rd rs1 rs2) c h = (amo-Keeps D rounds _ _ _ _ _ _).kept c h
    execute-WellFormed fl (op_fp funct7 rs2 rs1 rm rd) c h = (op_fp-Keeps _ _ _ _ _ _).kept c h
    execute-WellFormed fl (fma opcode fmt rs3 rs2 rs1 rd) c h = (fma-Keeps _ _ _ _ _ _ _).kept c h
    execute-WellFormed fl (beq rs1 rs2 imm) c h = (branch-Keeps _ _).kept c h
    execute-WellFormed fl (bne rs1 rs2 imm) c h = (branch-Keeps _ _).kept c h
    execute-WellFormed fl (blt rs1 rs2 imm) c h = (branch-Keeps _ _).kept c h
    execute-WellFormed fl (bge rs1 rs2 imm) c h = (branch-Keeps _ _).kept c h
    execute-WellFormed fl (bltu rs1 rs2 imm) c h = (branch-Keeps _ _).kept c h
    execute-WellFormed fl (bgeu rs1 rs2 imm) c h = (branch-Keeps _ _).kept c h
    execute-WellFormed fl (jal rd imm) c h = (jump-Keeps _ _).kept c h
    execute-WellFormed fl (jalr rd rs1 imm) c h = (jump-Keeps _ _).kept c h
    execute-WellFormed fl (lui rd imm) c h = (write-Keeps _ _).kept c h
    execute-WellFormed fl (auipc rd imm) c h = (write-Keeps _ _).kept c h
    execute-WellFormed fl fence c h = (next-Keeps).kept c h
    execute-WellFormed fl wfi c h = (next-Keeps).kept c h
    execute-WellFormed fl ecall c h = (ecall-Keeps).kept c h
    execute-WellFormed fl ebreak c h = (ebreak-Keeps).kept c h
    execute-WellFormed fl mret c h = (mret-Keeps).kept c h
    execute-WellFormed fl sret c h = (sret-Keeps).kept c h
    execute-WellFormed fl sfence_vma c h = (sfence_vma-Keeps).kept c h
    execute-WellFormed fl (csrrw rd rs1 csr) c h = (csr_register-Keeps _ _ _ _).kept c h
    execute-WellFormed fl (csrrs rd rs1 csr) c h = (csr_register-Keeps _ _ _ _).kept c h
    execute-WellFormed fl (csrrc rd rs1 csr) c h = (csr_register-Keeps _ _ _ _).kept c h
    execute-WellFormed fl (csrrwi rd uimm csr) c h = (csr_immediate-Keeps _ _ _ _).kept c h
    execute-WellFormed fl (csrrsi rd uimm csr) c h = (csr_immediate-Keeps _ _ _ _).kept c h
    execute-WellFormed fl (csrrci rd uimm csr) c h = (csr_immediate-Keeps _ _ _ _).kept c h
